-- ===== src/LogView.antt =====
-- cmd/derostorm/tui_state.go: the filter of the event log. strings.ToLower is the parameter `lower`;
-- a time is a number of nanoseconds, and the zero time is `none`.
use derostorm.Base.{
  ℕ, ◌≡◌, refl, sym, ap, arith, Bool, true, false, ◌||◌, ◌&&◌, not, Option, none, some, List, [],
  ◌∷◌, ltb, ◌==◌, if◌then◌else◌, length, inl, inr, Bool-cases,
}

-- LogInfo, LogGood, LogWarn and LogError are 0 to 3.
abbrev pub log_info : ℕ
log_info = 0

pub record LogEntry : Type 0 where
  pub time : ℕ
  pub level : ℕ
  pub tag : List ℕ
  pub text : List ℕ

pub record View : Type 0 where
  pub scroll : ℕ
  pub paused : Bool
  pub least : ℕ
  pub text : List ℕ
  pub cleared_at : Option ℕ

-- strings.Contains(s, want)
pub starts_with : List ℕ → List ℕ → Bool
starts_with s [] = true
starts_with [] (c ∷ want) = false
starts_with (b ∷ s) (c ∷ want) = let rest = starts_with s want in if b == c then rest else false

pub contains_text : List ℕ → List ℕ → Bool
unfolding starts_with
contains_text [] want = starts_with [] want
contains_text (b ∷ s) want = starts_with (b ∷ s) want || contains_text s want

unfoldable pub active : View → Bool
active v =
    not (length v.text == 0)
    || (not (v.least == log_info) || elim v.cleared_at [ none ↦ false | some t ↦ true ])

module _ (lower : List ℕ → List ℕ) where
  -- The three tests of the loop that skip an entry, in their order.
  unfoldable pub skipped : View → LogEntry → Bool
  unfolding contains_text
  skipped v e =
      let want = lower v.text in
      if ltb e.level v.least
      then true
      else if elim v.cleared_at [ none ↦ false | some t ↦ ltb e.time t ]
      then true
      else not (length want == 0)
        && (not (contains_text (lower e.text) want) && not (contains_text (lower e.tag) want))

  pub keep_loop : View → List LogEntry → List LogEntry
  unfolding skipped
  keep_loop v [] = []
  keep_loop v (e ∷ src) = let rest = keep_loop v src in if skipped v e then rest else e ∷ rest

  unfoldable pub apply : View → List LogEntry → List LogEntry
  unfolding active keep_loop
  apply v src = if active v then keep_loop v src else src

  skipped-active :
      (v : View) (e : LogEntry) → length (lower []) ≡ 0 → active v ≡ false → skipped v e ≡ false
  unfolding active skipped
  skipped-active v e empty off = by_text v.text refl v.cleared_at refl
    where
      by_text : (t : List ℕ) → v.text ≡ t → (c : Option ℕ) → v.cleared_at ≡ c → skipped v e ≡ false
      by_text (b ∷ t) ht c hc = absurd (ground (arith, off, ht))
      by_text [] ht (some c) hc = absurd (ground (arith, off, hc))
      by_text [] ht none hc = rw (ht, hc) (ground (arith, off, empty))

  -- The shortcut for a view with no filter shows what the loop would show, if the empty text has no
  -- letters to lower: so apply keeps exactly the entries that pass the three tests.
  pub apply-keep_loop :
      (v : View) (src : List LogEntry) → length (lower []) ≡ 0 → apply v src ≡ keep_loop v src
  unfolding apply
  apply-keep_loop v src empty = elim (Bool-cases (active v)) [
    | inl on ↦ rw on refl
    | inr off ↦ rw off (sym (all_kept off src))
  ]
    where
      all_kept : active v ≡ false → (src : List LogEntry) → keep_loop v src ≡ src
      all_kept off [] = unfold keep_loop in refl
      all_kept off (e ∷ src) =
          unfold keep_loop in rw (skipped-active v e empty off) (ap (◌∷◌ e) (all_kept off src))
