-- ===== src/NodeInfo.antt =====
-- cmd/derostorm/nodeinfo.go: poll, which asks the node for what getwork does not carry. getInfo
-- goes over HTTP: what it answers for each address at the time of a poll is an argument.
use derostorm.Base.{
  ℕ, ◌<◌, ◌≡◌, refl, ap, ◌∙◌, arith, Bool, true, false, ◌||◌, ◌&&◌, not, Option, none, some, List,
  [], ◌∷◌, ◌==◌, if◌then◌else◌, length, inl, inr, Bool-cases,
}

-- type NodeInfo; the numbers that the panel shows are kept as one field.
pub record Info : Type 0 where
  pub ok : Bool
  pub figures : ℕ
  pub endpoint : List ℕ

-- The line for the event log: none yet, which endpoint answered, or that none did.
pub data Note : Type 0 where
  no_note : Note
  detail_from : List ℕ → Note
  unavailable : Note

pub record NodeWatcher : Type 0 where
  pub cur : Info
  pub note : Note
  pub endpoints : List (List ℕ)

abbrev is_detail : Note → Bool
is_detail no_note = false
is_detail (detail_from url) = true
is_detail unavailable = false

abbrev is_empty : Note → Bool
is_empty no_note = true
is_empty (detail_from url) = false
is_empty unavailable = false

-- The loop over the addresses: the first that answers, with its answer.
pub first_answer : (List ℕ → Option Info) → List (List ℕ) → Option (List ℕ × Info)
first_answer get_info [] = none
first_answer get_info (url ∷ list) =
    let rest = first_answer get_info list in
    elim (get_info url) [ none ↦ rest | some info ↦ some (url, info) ]

-- What is stored for an answer.
unfoldable pub store : List ℕ → Info → NodeWatcher → NodeWatcher
store url info w = record w {
  cur = record info { endpoint = url };
  note = if is_empty w.note || not (is_detail w.note) then detail_from url else w.note;
}

-- What is stored when no address answered.
unfoldable pub give_up : NodeWatcher → NodeWatcher
give_up w = if not w.cur.ok && is_empty w.note then record w { note = unavailable } else w

unfoldable pub poll : (List ℕ → Option Info) → NodeWatcher → NodeWatcher × Bool
unfolding first_answer store give_up
poll get_info w =
    let known = w.cur.endpoint in
    let list = if not (length known == 0) then known ∷ [] else w.endpoints in
    elim (first_answer get_info list) [
      | none ↦ (give_up w, false)
      | some (url, info) ↦ (store url info w, true)
    ]

pub polls : List (List ℕ → Option Info) → NodeWatcher → NodeWatcher
unfolding poll
polls [] w = w
polls (get_info ∷ later) w = polls later (poll get_info w).0

give_up-cur : (w : NodeWatcher) → (give_up w).cur ≡ w.cur
unfolding give_up
give_up-cur w = elim (Bool-cases (not w.cur.ok && is_empty w.note)) [
  | inl e ↦ rw e refl
  | inr e ↦ rw e refl
]

poll-endpoint :
    (get_info : List ℕ → Option Info) (w : NodeWatcher)
    → 0 < length w.cur.endpoint
    → (poll get_info w).0.cur.endpoint ≡ w.cur.endpoint
unfolding poll
poll-endpoint get_info w known =
    let alone : not (length w.cur.endpoint == 0) ≡ true = ground arith in
    answered (get_info w.cur.endpoint) refl alone
  where
    answered :
        (r : Option Info)
        → get_info w.cur.endpoint ≡ r
        → not (length w.cur.endpoint == 0) ≡ true
        → (poll get_info w).0.cur.endpoint ≡ w.cur.endpoint
    answered none e alone = simp (poll, first_answer, alone, e, give_up-cur)
    answered (some info) e alone = simp (poll, first_answer, alone, e, store)

-- Once an address has answered, it is the one that is asked and shown for good: no later poll
-- changes it, whatever answers or fails to.
pub polls-endpoint :
    (later : List (List ℕ → Option Info)) (w : NodeWatcher)
    → 0 < length w.cur.endpoint
    → (polls later w).cur.endpoint ≡ w.cur.endpoint
unfolding polls
polls-endpoint [] w known = refl
polls-endpoint (get_info ∷ later) w known =
    let same = poll-endpoint get_info w known in
    polls-endpoint later (poll get_info w).0 (omega (arith, ap length same, known)) ∙ same
