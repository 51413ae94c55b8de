-- ===== src/Engine/GetWork/Accepted.antt =====
-- How many shares the console is told were accepted.
use derostorm.Base.{
  ℕ, suc, ◌+◌, ◌≤◌, ◌≡◌, refl, sym, ap, ◌∙◌, arith, Bool, true, false, not, List, [], ◌∷◌, ◌++◌,
  ltb, ◌==◌, if◌then◌else◌, length, inl, inr, Bool-cases,
}
use mathlib.Core.Path.{subst}
use derostorm.Engine.GetWork.{
  reconnecting, Job, Post, accepted, retrying, lost, dialing, connected, node_error, new_height,
  block_found, share_rejected, Phase, at_dial, reading, returned, Session, Happening, stop,
  dial_failed, dialed, read_failed, received, begin_dial, on_dial_failed, on_dialed, on_read_failed,
  on_received, step, run, post_if,
}

-- How many shares the console was told were accepted.
abbrev pub count_accepted : List Post → ℕ
count_accepted [] = 0
count_accepted (accepted n ∷ posts) = suc (count_accepted posts)
count_accepted (dialing ∷ posts) = count_accepted posts
count_accepted (retrying ∷ posts) = count_accepted posts
count_accepted (connected ∷ posts) = count_accepted posts
count_accepted (lost ∷ posts) = count_accepted posts
count_accepted (node_error t ∷ posts) = count_accepted posts
count_accepted (new_height n ∷ posts) = count_accepted posts
count_accepted (block_found n ∷ posts) = count_accepted posts
count_accepted (share_rejected n ∷ posts) = count_accepted posts

-- The node's counter of this miner's shares never falls from one job to the next.
abbrev pub Rising : ℕ → List Happening → Type 0
Rising m [] = Unit
Rising m (stop ∷ hs) = Rising m hs
Rising m (dial_failed ∷ hs) = Rising m hs
Rising m (dialed c now ∷ hs) = Rising m hs
Rising m (read_failed ∷ hs) = Rising m hs
Rising m (received j now ∷ hs) = (m ≤ j.mini_blocks) × Rising j.mini_blocks hs

count_accepted-append :
    (ps qs : List Post) → count_accepted (ps ++ qs) ≡ count_accepted ps + count_accepted qs
count_accepted-append [] qs = omega arith
count_accepted-append (accepted n ∷ posts) qs = omega (arith, count_accepted-append posts qs)
count_accepted-append (dialing ∷ posts) qs = count_accepted-append posts qs
count_accepted-append (retrying ∷ posts) qs = count_accepted-append posts qs
count_accepted-append (connected ∷ posts) qs = count_accepted-append posts qs
count_accepted-append (lost ∷ posts) qs = count_accepted-append posts qs
count_accepted-append (node_error t ∷ posts) qs = count_accepted-append posts qs
count_accepted-append (new_height n ∷ posts) qs = count_accepted-append posts qs
count_accepted-append (block_found n ∷ posts) qs = count_accepted-append posts qs
count_accepted-append (share_rejected n ∷ posts) qs = count_accepted-append posts qs

count_accepted-post_if :
    (b : Bool) (p : Post) (ps : List Post)
    → count_accepted (post_if b p ps)
      ≡ count_accepted ps + (if b then count_accepted (p ∷ []) else 0)
count_accepted-post_if true p ps = count_accepted-append ps (p ∷ [])
count_accepted-post_if false p ps = omega arith

count_accepted-on_received :
    (j : Job) (now : ℕ) (s : Session)
    → count_accepted (on_received j now s).posts
      ≡ count_accepted s.posts + (if ltb s.job.mini_blocks j.mini_blocks then 1 else 0)
unfolding on_received
count_accepted-on_received j now s =
    let p1 = post_if (not (length j.last_error == 0)) (node_error j.last_error) s.posts in
    let p2 = post_if (not (j.height == s.job.height)) (new_height j.height) p1 in
    let p3 = post_if (ltb s.job.mini_blocks j.mini_blocks) (accepted j.mini_blocks) p2 in
    let p4 = post_if (ltb s.job.blocks j.blocks) (block_found j.blocks) p3 in
    ground (
      arith,
      count_accepted-post_if (not (length j.last_error == 0)) (node_error j.last_error) s.posts,
      count_accepted-post_if (not (j.height == s.job.height)) (new_height j.height) p1,
      count_accepted-post_if (ltb s.job.mini_blocks j.mini_blocks) (accepted j.mini_blocks) p2,
      count_accepted-post_if (ltb s.job.blocks j.blocks) (block_found j.blocks) p3,
      count_accepted-post_if (ltb s.job.rejected j.rejected) (share_rejected j.rejected) p4,
    )

QuietStep : (s : Session) → Session → Type 0
QuietStep s t = (t.job ≡ s.job) × (count_accepted t.posts ≡ count_accepted s.posts)

QuietStep-begin_dial : (s : Session) → QuietStep s (begin_dial s)
unfolding QuietStep begin_dial
QuietStep-begin_dial s = elim (Bool-cases s.quit) [
  | inl e ↦ rw e (refl, refl)
  | inr e ↦ elim (Bool-cases s.first) [
    | inl f ↦ rw (e, f) (refl, count_accepted-append s.posts (dialing ∷ []) ∙ omega arith)
    | inr f ↦ rw (e, f) (refl, refl)
  ]
]

QuietStep-if :
    (b : Bool) (r s t : Session) → QuietStep r s → QuietStep r t → QuietStep r (if b then s else t)
QuietStep-if true r s t v w = v
QuietStep-if false r s t v w = w

QuietStep-on_read_failed : (s : Session) → QuietStep s (on_read_failed s)
unfolding on_read_failed QuietStep
QuietStep-on_read_failed s =
    let again : Session = record s { state = reconnecting; posts = s.posts ++ lost ∷ [] } in
    let (job, count) = QuietStep-begin_dial again in
    QuietStep-if s.quit s (record s { phase = returned }) (begin_dial again) (refl, refl)
      (job, count ∙ count_accepted-append s.posts (lost ∷ []) ∙ omega arith)

QuietStep-on_dial_failed : (s : Session) → QuietStep s (on_dial_failed s)
unfolding on_dial_failed QuietStep
QuietStep-on_dial_failed s =
    let (job, count) = QuietStep-begin_dial (record s { posts = s.posts ++ retrying ∷ [] }) in
    (job, count ∙ count_accepted-append s.posts (retrying ∷ []) ∙ omega arith)

QuietStep-on_dialed : (c now : ℕ) (s : Session) → QuietStep s (on_dialed c now s)
unfolding on_dialed QuietStep
QuietStep-on_dialed c now s = (refl, count_accepted-append s.posts (connected ∷ []) ∙ omega arith)

-- The claim of accepted-bounded for a session.
Bounded : List Happening → Session → Type 0
Bounded hs s =
    count_accepted (run hs s).posts + s.job.mini_blocks
    ≤ count_accepted s.posts + (run hs s).job.mini_blocks

Bounded-quiet :
    (hs : List Happening) (s t : Session)
    → QuietStep s t
    → (Rising t.job.mini_blocks hs → Bounded hs t)
    → Rising s.job.mini_blocks hs
    → count_accepted (run hs t).posts + s.job.mini_blocks
      ≤ count_accepted s.posts + (run hs t).job.mini_blocks
unfolding QuietStep Bounded
Bounded-quiet hs s t (job, count) again rising =
    let same : t.job.mini_blocks ≡ s.job.mini_blocks = ap (λ (j : Job). j.mini_blocks) job in
    omega (arith, again (rw same rising), same, count)

Rising-lower : (m n : ℕ) (hs : List Happening) → m ≤ n → Rising n hs → Rising m hs
Rising-lower m n [] le r = tt
Rising-lower m n (stop ∷ hs) le r = Rising-lower m n hs le r
Rising-lower m n (dial_failed ∷ hs) le r = Rising-lower m n hs le r
Rising-lower m n (dialed c now ∷ hs) le r = Rising-lower m n hs le r
Rising-lower m n (read_failed ∷ hs) le r = Rising-lower m n hs le r
Rising-lower m n (received j now ∷ hs) le (up, r) = (omega arith, r)

on_received-Bounded :
    (hs : List Happening) (j : Job) (now : ℕ) (s : Session)
    → s.job.mini_blocks ≤ j.mini_blocks
    → Bounded hs (on_received j now s)
    → count_accepted (run hs (on_received j now s)).posts + s.job.mini_blocks
      ≤ count_accepted s.posts + (run hs (on_received j now s)).job.mini_blocks
unfolding Bounded
on_received-Bounded hs j now s up b =
    let now_job : (on_received j now s).job.mini_blocks ≡ j.mini_blocks =
      unfold on_received in refl in
    ground (arith, b, now_job, count_accepted-on_received j now s, up)

stepped :
    (hs : List Happening) (s : Session) (h : Happening) (t : Session)
    → step h s ≡ t
    → count_accepted (run hs t).posts + s.job.mini_blocks
      ≤ count_accepted s.posts + (run hs t).job.mini_blocks
    → count_accepted (run hs (step h s)).posts + s.job.mini_blocks
      ≤ count_accepted s.posts + (run hs (step h s)).job.mini_blocks
stepped hs s h t e b =
    subst
      (λ u.
        count_accepted (run hs u).posts + s.job.mini_blocks
        ≤ count_accepted s.posts + (run hs u).job.mini_blocks)
      (sym e) b

Bounded-step :
    (h : Happening) (hs : List Happening) (s : Session)
    → ((t : Session) → Rising t.job.mini_blocks hs → Bounded hs t)
    → Rising s.job.mini_blocks (h ∷ hs)
    → (p : Phase) → s.phase ≡ p
    → Bounded (h ∷ hs) s
unfolding Bounded run
Bounded-step stop hs s again rising p e = unfold step in again (record s { quit = true }) rising
Bounded-step dial_failed hs s again rising at_dial e =
    stepped hs s dial_failed (on_dial_failed s) (simp (step, e)) (
      Bounded-quiet hs s (on_dial_failed s) (QuietStep-on_dial_failed s) (again (on_dial_failed s))
        rising)
Bounded-step dial_failed hs s again rising reading e =
    stepped hs s dial_failed s (simp (step, e)) (again s rising)
Bounded-step dial_failed hs s again rising returned e =
    stepped hs s dial_failed s (simp (step, e)) (again s rising)
Bounded-step (dialed c now) hs s again rising at_dial e =
    stepped hs s (dialed c now) (on_dialed c now s) (simp (step, e)) (
      Bounded-quiet hs s (on_dialed c now s) (QuietStep-on_dialed c now s)
        (again (on_dialed c now s)) rising)
Bounded-step (dialed c now) hs s again rising reading e =
    stepped hs s (dialed c now) s (simp (step, e)) (again s rising)
Bounded-step (dialed c now) hs s again rising returned e =
    stepped hs s (dialed c now) s (simp (step, e)) (again s rising)
Bounded-step read_failed hs s again rising reading e =
    stepped hs s read_failed (on_read_failed s) (simp (step, e)) (
      Bounded-quiet hs s (on_read_failed s) (QuietStep-on_read_failed s) (again (on_read_failed s))
        rising)
Bounded-step read_failed hs s again rising at_dial e =
    stepped hs s read_failed s (simp (step, e)) (again s rising)
Bounded-step read_failed hs s again rising returned e =
    stepped hs s read_failed s (simp (step, e)) (again s rising)
Bounded-step (received j now) hs s again (up, rising) reading e =
    stepped hs s (received j now) (on_received j now s) (simp (step, e)) (
      on_received-Bounded hs j now s up
        (again (on_received j now s) (unfold on_received in rising)))
Bounded-step (received j now) hs s again (up, rising) at_dial e =
    stepped hs s (received j now) s (simp (step, e))
      (again s (Rising-lower s.job.mini_blocks j.mini_blocks hs up rising))
Bounded-step (received j now) hs s again (up, rising) returned e =
    stepped hs s (received j now) s (simp (step, e))
      (again s (Rising-lower s.job.mini_blocks j.mini_blocks hs up rising))

Bounded-run : (hs : List Happening) (s : Session) → Rising s.job.mini_blocks hs → Bounded hs s
unfolding Bounded
Bounded-run [] s rising = unfold run in omega arith
Bounded-run (h ∷ hs) s rising = Bounded-step h hs s (Bounded-run hs) rising s.phase refl

-- As long as the node's counter of this miner's shares never falls, the console is told of at most
-- as many accepted shares as the counter grew by, whatever happens to the connection.
pub run-accepted_bound :
    (hs : List Happening) (s : Session)
    → Rising s.job.mini_blocks hs
    → count_accepted (run hs s).posts + s.job.mini_blocks
      ≤ count_accepted s.posts + (run hs s).job.mini_blocks
run-accepted_bound hs s rising = unfold Bounded in Bounded-run hs s rising
