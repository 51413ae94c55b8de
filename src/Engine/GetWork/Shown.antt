-- ===== src/Engine/GetWork/Shown.antt =====
-- What holds all through a session with the node.
use derostorm.Base.{
  ℕ, ◌≡◌, ◌≢◌, ◌⊎◌, refl, arith, Bool, true, false, some, List, [], ◌∷◌, ◌++◌, if◌then◌else◌, inl,
  inr, Bool-cases,
}
use derostorm.Engine.GetWork.{
  mining, reconnecting, retrying, lost, Phase, at_dial, reading, returned, Session, Happening, stop,
  dial_failed, dialed, read_failed, received, begin_dial, on_dial_failed, on_dialed, on_read_failed,
  on_received, step, run,
}

-- A state is shown as mining only after the dial, and a session that reads has a connection.
record IsShown (s : Session) : Type 0 where
  pub not_mining : s.phase ≡ at_dial → s.state ≢ mining
  pub has_conn : s.phase ≡ reading → (c : ℕ) × (s.conn ≡ some c)

IsShown-begin_dial : (s : Session) → IsShown (begin_dial s)
unfolding begin_dial
IsShown-begin_dial s = elim (Bool-cases s.quit) [
  | inl e ↦
      rw e (record {
        not_mining = λ h _. ground (arith, h);
        has_conn = λ h. absurd (ground (arith, h));
      })
  | inr e ↦ elim (Bool-cases s.first) [
    | inl f ↦
        rw (e, f)
          (record {
            not_mining = λ _ h. ground (arith, h);
            has_conn = λ h. absurd (ground (arith, h));
          })
    | inr f ↦
        rw (e, f)
          (record {
            not_mining = λ _ h. ground (arith, h);
            has_conn = λ h. absurd (ground (arith, h));
          })
  ]
]

IsShown-if : (b : Bool) (s t : Session) → IsShown s → IsShown t → IsShown (if b then s else t)
IsShown-if true s t v w = v
IsShown-if false s t v w = w

IsShown-on_read_failed : (s : Session) → IsShown (on_read_failed s)
unfolding on_read_failed
IsShown-on_read_failed s =
    let again : Session = record s { state = reconnecting; posts = s.posts ++ lost ∷ [] } in
    IsShown-if s.quit (record s { phase = returned }) (begin_dial again)
      (record {
        not_mining = λ h. absurd (ground (arith, h));
        has_conn = λ h. absurd (ground (arith, h));
      })
      (IsShown-begin_dial again)

IsShown-step : (h : Happening) (s : Session) → IsShown s → IsShown (step h s)
unfolding step on_dial_failed on_dialed on_received
IsShown-step stop s v = record { not_mining = v.not_mining; has_conn = v.has_conn }
IsShown-step dial_failed s v = by_phase s.phase refl
  where
    by_phase : (p : Phase) → s.phase ≡ p → IsShown (step dial_failed s)
    by_phase at_dial e =
        rw (step, e) (IsShown-begin_dial (record s { posts = s.posts ++ retrying ∷ [] }))
    by_phase reading e = rw (step, e) v
    by_phase returned e = rw (step, e) v
IsShown-step (dialed conn now) s v = by_phase s.phase refl
  where
    by_phase : (p : Phase) → s.phase ≡ p → IsShown (step (dialed conn now) s)
    by_phase at_dial e =
        rw (step, e)
          (record { not_mining = λ h. absurd (ground (arith, h)); has_conn = λ _. (conn, refl) })
    by_phase reading e = rw (step, e) v
    by_phase returned e = rw (step, e) v
IsShown-step read_failed s v = by_phase s.phase refl
  where
    by_phase : (p : Phase) → s.phase ≡ p → IsShown (step read_failed s)
    by_phase at_dial e = rw (step, e) v
    by_phase returned e = rw (step, e) v
    by_phase reading e = rw (step, e) (IsShown-on_read_failed s)
IsShown-step (received result now) s v = by_phase s.phase refl
  where
    by_phase : (p : Phase) → s.phase ≡ p → IsShown (step (received result now) s)
    by_phase at_dial e = rw (step, e) v
    by_phase returned e = rw (step, e) v
    by_phase reading e =
        rw (step, e)
          (record { not_mining = λ h. absurd (ground (arith, h, e)); has_conn = λ _. v.has_conn e })

IsShown-run : (hs : List Happening) (s : Session) → IsShown s → IsShown (run hs s)
unfolding run
IsShown-run [] s v = v
IsShown-run (h ∷ hs) s v = IsShown-run hs (step h s) (IsShown-step h s v)

-- A run that starts before the first dial, not shown as mining, is at every time in one of three
-- phases: it waits for a dial and is not shown as mining, it reads jobs and has a connection, or
-- it has returned. This holds whatever happens and in whatever order.
pub run-state_shown :
    (hs : List Happening) (s : Session)
    → s.phase ≡ at_dial
    → s.state ≢ mining
    → (((run hs s).phase ≡ at_dial) × ((run hs s).state ≢ mining))
      ⊎ (((c : ℕ) × ((run hs s).phase ≡ reading) × ((run hs s).conn ≡ some c))
          ⊎ ((run hs s).phase ≡ returned))
run-state_shown hs s start idle = by_phase (run hs s).phase refl (
    IsShown-run hs s
      (record { not_mining = λ _. idle; has_conn = λ h. absurd (ground (arith, h, start)) }))
  where
    by_phase :
        (p : Phase)
        → (run hs s).phase ≡ p
        → IsShown (run hs s)
        → (((run hs s).phase ≡ at_dial) × ((run hs s).state ≢ mining))
          ⊎ (((c : ℕ) × ((run hs s).phase ≡ reading) × ((run hs s).conn ≡ some c))
              ⊎ ((run hs s).phase ≡ returned))
    by_phase at_dial e v = inl (e, v.not_mining e)
    by_phase reading e v = let (c, h) = v.has_conn e in inr (inl (c, e, h))
    by_phase returned e v = inr (inr e)
