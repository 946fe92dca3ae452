-- ===== src/Store/Pruning/Page.antt =====
-- internal/storage/sqlite/pruning.go: `PruneCandidates`, one page of the relays that may be pruned, with the
-- positions of internal/storage/pruning.go.
pub mod Order
pub mod Members
pub mod First
pub mod Contract
use activity_relay_directory.Prelude.{
  ℕ, ◌+◌, ◌-◌, Bool, true, false, not, ◌&&◌, ◌||◌, Option, none, some, List, [], ◌∷◌, map, ltb, leb,
  ◌==◌, if◌then◌else◌, Bytes, is_empty, bytes_lt, lookup, length, take, all, last,
}
use activity_relay_directory.Identity.Library.{Library}
use activity_relay_directory.Protocol.Vocabulary.{AdministrativeState}
use activity_relay_directory.Store.Schema.{Relay, Database}
use activity_relay_directory.Store.Rows.{
  ClockTime, since_epoch, before_epoch, canonical_identity, validate_identity_intent,
}
use activity_relay_directory.Store.Lifecycle.{is_registered}
use activity_relay_directory.Store.Pruning.{dead_before, recently_seen, is_protected}

-- `PruneCandidateCursor`; the zero value starts from the first candidate.
pub record Position : Type 0 where
  pub last_seen : ℕ
  pub relay_actor : Bytes

abbrev pub start : Position
start = record { last_seen = 0; relay_actor = [] }

abbrev pub is_start : Position → Bool
is_start position = position.last_seen == 0 && is_empty position.relay_actor

unfoldable pub position_valid : Position → Bool
position_valid position = is_start position || not (is_empty position.relay_actor)

-- The first position stands after the second one.
unfoldable pub cursor_after : Position → Position → Bool
cursor_after candidate previous =
    ltb previous.last_seen candidate.last_seen
    || candidate.last_seen == previous.last_seen
      && bytes_lt previous.relay_actor candidate.relay_actor

pub record Candidate : Type 0 where
  pub relay_actor : Bytes
  pub public_base_url : Bytes
  pub administrative_state : AdministrativeState
  pub last_seen : ℕ

abbrev pub position_of : Candidate → Position
position_of candidate = record {
  last_seen = candidate.last_seen;
  relay_actor = candidate.relay_actor;
}

pub record Page : Type 0 where
  pub candidates : List Candidate
  pub next : Position

pub data PageResult : Type 0 where
  page : Page → PageResult
  read_input read_failure : PageResult

-- The `WHERE` of the query.
unfoldable pub selected : Database → ℕ → Position → Bytes × Relay → Bool
selected db observed after (actor, row) =
    is_registered row.lifecycle_state
    && not (recently_seen row observed)
    && cursor_after (record { last_seen = row.last_seen_at; relay_actor = actor }) after
    && not (is_protected (lookup actor db.observations) observed)

abbrev pub candidate_of : Bytes × Relay → Candidate
candidate_of (actor, row) = record {
  relay_actor = actor;
  public_base_url = row.public_base_url;
  administrative_state = row.administrative_state;
  last_seen = row.last_seen_at;
}

-- `ORDER BY last_seen_at_unix, relay_actor`
unfoldable pub insert_ordered : Candidate → List Candidate → List Candidate
insert_ordered candidate [] = candidate ∷ []
insert_ordered candidate (first ∷ rest) =
    if cursor_after (position_of candidate) (position_of first)
    then first ∷ insert_ordered candidate rest
    else candidate ∷ first ∷ rest

unfoldable pub query : Database → ℕ → Position → List (Bytes × Relay) → List Candidate
query db observed after [] = []
query db observed after (entry ∷ relays) =
    let rest = query db observed after relays in
    if selected db observed after entry then insert_ordered (candidate_of entry) rest else rest

abbrev pub candidate_ok : Library → Candidate → Bool
candidate_ok lib candidate = canonical_identity lib candidate.relay_actor candidate.public_base_url

abbrev pub next_of : List Candidate → Position
next_of candidates = elim (last candidates) [
  | none ↦ start
  | some candidate ↦ position_of candidate
]

-- The loop over the rows, of which the query answers one more than the limit.
unfoldable pub page_of : Library → ℕ → List Candidate → PageResult
page_of lib limit rows =
    if not (all (candidate_ok lib) (take (limit + 1) rows))
    then read_failure
    else page (record {
      candidates = take limit rows;
      next = if ltb limit (length rows) then next_of (take limit rows) else start;
    })

abbrev pub maximum_prune_candidate_page : ℕ
maximum_prune_candidate_page = 100

abbrev pub position_refused : Library → Position → ℕ → Bool
position_refused lib after observed =
    not (is_start after)
    && (not (validate_identity_intent lib after.relay_actor)
        || ltb observed (after.last_seen + dead_before))

unfoldable pub prune_candidates : Library → Bool → Database → Position → ℕ → ClockTime → PageResult
prune_candidates lib fails db after limit (before_epoch n) = read_input
prune_candidates lib fails db after limit (since_epoch observed) =
    if not (position_valid after)
      || limit == 0
      || ltb maximum_prune_candidate_page limit
      || position_refused lib after observed
    then read_input
    else if fails
    then read_failure
    else page_of lib limit (query db observed after db.relays)
