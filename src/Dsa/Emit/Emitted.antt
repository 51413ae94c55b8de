-- ===== src/Dsa/Emit/Emitted.antt =====
-- A column of emitRun in internal/dsa/dsa.go: what holds of the order and the keys before the
-- descriptors of the column are made, and what the descriptors are then.
use derostorm.Base.{
  ℕ, suc, ◌+◌, ◌-◌, ◌^◌, ◌≤◌, ◌<◌, ◌≡◌, ◌⊎◌, refl, sym, ap, ◌∙◌, arith, Bool, true, false, List, [],
  ◌∷◌, ◌++◌, leb, ◌==◌, ==_iff, if◌then◌else◌, length, length-append, length-map, length-take,
  length-drop, take, take_all, drop, All, Chain, count, inl, inr, Bool-cases,
}
use mathlib.Core.Path.{subst}
use mathlib.Core.List.{append-nil}
use derostorm.Base.Bytes.{IsByte}
use derostorm.Dsa.Words.{Desc, make_desc}
use derostorm.Dsa.Suffix.{UpTo}
use derostorm.Dsa.Column.{Entry}
use derostorm.Dsa.Groups.Valid.{HasKey, IsDesc, all_places}
use derostorm.Dsa.Emit.{Lists}
use derostorm.Dsa.Emit.Run.{
  Columns, group_loop, group_descs, first_key, flush, column_descs, emit_column,
}
use derostorm.Dsa.Emit.Valid.{
  at_column, key32-lt, make_desc-IsDesc, Holds, Holds-extend, Holds-arena,
}
use derostorm.Dsa.Emit.Grouped.{Slice, bases, group_descs-IsDesc}

-- How often a place stands in a column.
pub count-at_column :
    (rel p : ℕ) (xs : List ℕ)
    → count p (at_column rel xs) ≡ (if leb rel p then count (p - rel) xs else 0)
count-at_column rel p [] = ground arith
count-at_column rel p (x ∷ xs) = ground (arith, count-at_column rel p xs)

pub Slice-room :
    (arena xs : List ℕ) (o : ℕ) → 1 ≤ length xs → Slice arena o xs → o + length xs ≤ length arena
Slice-room arena xs o some h =
    let whole : length (take (length xs) (drop o arena)) ≡ length xs = ap length h in
    omega (arith, length-take (length xs) (drop o arena), length-drop o arena)

drop-front : (xs ys : List ℕ) → drop (length xs) (xs ++ ys) ≡ ys
drop-front [] ys = refl
drop-front (x ∷ xs) ys = drop-front xs ys

pub Slice-end : (arena xs : List ℕ) → Slice (arena ++ xs) (length arena) xs
Slice-end arena xs = rw (drop-front arena xs) (take_all (length xs) xs (omega arith))

-- One group only if all keys are the first.
group_loop-one :
    (rel off i k m : ℕ) (es : List Entry)
    → (1 ≤ length (group_loop rel off i k m es))
      × (length (group_loop rel off i k m es) ≡ 1 → All (λ e. e.1 ≡ k) es)
unfolding group_loop
group_loop-one rel off i k m [] = (omega arith, λ h. tt)
group_loop-one rel off i k m (e ∷ es) = elim (Bool-cases (e.1 == k)) [
  | inl same ↦
      let eq : e.1 ≡ k = (==_iff e.1 k).0 same in
      let (some, one) = group_loop-one rel off i e.1 (m + 1) es in
      rw same (some, λ h. (eq, subst (λ l. All (λ f. f.1 ≡ l) es) eq (one h)))
  | inr new ↦
      let (some, _) = group_loop-one rel off (i + m) e.1 1 es in
      rw new (omega arith, λ h. absurd (omega arith))
]

module _ (t : List ℕ) (bytes : All IsByte t) (small : length t ≤ 2 ^ 20) where
  -- The state before the descriptors of column rel: the keys are those of the column, the blocks
  -- stand in the order of their suffixes there, and are the blocks `blocks` in some order.
  abbrev pub Ready : List ℕ → ℕ → Columns → Type 0
  Ready blocks rel w =
      All (λ e. HasKey t (if w.uniform then w.k0 else e.1) (e.0 + rel)) w.entries
      × Chain (UpTo t) (at_column rel (bases w.entries))
      × ((p : ℕ) → count p (bases w.entries) ≡ count p blocks)
      × (length w.entries ≡ length blocks)

  -- The arena has the current order.
  abbrev pub Clean : Columns → Type 0
  Clean w = Slice w.lists.arena w.arena_off (bases w.entries)

  -- After the flush the arena has the order, and nothing else has changed.
  flush_lem :
      (es : List Entry) (k0 off : ℕ) (u d : Bool) (s : Lists) (c : ℕ → ℕ) (blocks : List ℕ)
      (rel : ℕ)
      → let w : Columns = record {
        entries = es;
        k0 = k0;
        uniform = u;
        dirty = d;
        arena_off = off;
        lists = s;
      } in
        (d ≡ true) ⊎ Clean w
        → Holds t s c
        → Ready blocks rel w
        → Holds t (flush w).lists c
          × Ready blocks rel (flush w)
          × Clean (flush w)
          × ((flush w).dirty ≡ false)
          × (length (flush w).lists.arena ≤ length s.arena + length es)
          × (length (flush w).lists.descs ≡ length s.descs)
          × (length (flush w).entries ≡ length es)
  unfolding flush
  flush_lem es k0 off u true s c blocks rel clean holds ready = (
    Holds-arena t s c (bases es) holds,
    ready,
    Slice-end s.arena (bases es),
    refl,
    omega (arith, length-append s.arena (bases es), length-map (λ (e : Entry). e.0) es),
    refl,
    refl,
  )
  flush_lem es k0 off u false s c blocks rel (inl d) holds ready = cc
  flush_lem es k0 off u false s c blocks rel (inr clean) holds ready =
      (holds, ready, clean, refl, omega arith, refl, refl)

  pub keyed-first :
      (es : List Entry) (rel : ℕ)
      → All (λ e. HasKey t e.1 (e.0 + rel)) es
      → All (λ e. e.1 ≡ first_key es) es
      → All (λ e. HasKey t (first_key es) (e.0 + rel)) es
  keyed-first es rel a b = go es a b
    where
      go :
          (xs : List Entry)
          → All (λ e. HasKey t e.1 (e.0 + rel)) xs
          → All (λ e. e.1 ≡ first_key es) xs
          → All (λ e. HasKey t (first_key es) (e.0 + rel)) xs
      go [] a b = tt
      go (x ∷ xs) ((lt, key), a) (eq, b) = ((lt, key ∙ eq), go xs a b)

  group_descs-one :
      (rel off : ℕ) (es : List Entry)
      → length (group_descs rel off es) ≡ 1
      → All (λ e. e.1 ≡ first_key es) es
  unfolding group_descs first_key
  group_descs-one rel off [] h = tt
  group_descs-one rel off (e ∷ es) h =
      let (_, one) = group_loop-one rel off 0 e.1 1 es in (refl, one h)

  length-group_loop :
      (rel off i k m : ℕ) (es : List Entry) → length (group_loop rel off i k m es) ≤ suc (length es)
  unfolding group_loop
  length-group_loop rel off i k m [] = omega arith
  length-group_loop rel off i k m (e ∷ es) = elim (Bool-cases (e.1 == k)) [
    | inl same ↦ rw same (omega (arith, length-group_loop rel off i e.1 (m + 1) es))
    | inr new ↦ rw new (omega (arith, length-group_loop rel off (i + m) e.1 1 es))
  ]

  length-group_descs : (rel off : ℕ) (es : List Entry) → length (group_descs rel off es) ≤ length es
  unfolding group_descs
  length-group_descs rel off [] = omega arith
  length-group_descs rel off (e ∷ es) = length-group_loop rel off 0 e.1 1 es

  -- The places of the column are those of the blocks.
  same_places :
      (es : List Entry) (blocks : List ℕ) (rel p : ℕ)
      → ((q : ℕ) → count q (bases es) ≡ count q blocks)
      → count p (at_column rel (bases es)) ≡ count p (at_column rel blocks)
  same_places es blocks rel p same =
      ground (arith, count-at_column rel p (bases es), count-at_column rel p blocks, same (p - rel))

  key_places :
      (k rel : ℕ) (es : List Entry)
      → All (λ e. HasKey t k (e.0 + rel)) es
      → All (HasKey t k) (at_column rel (bases es))
  key_places k rel [] a = tt
  key_places k rel (e ∷ es) (h, a) = (h, key_places k rel es a)

  key_bound :
      (k rel : ℕ) (es : List Entry)
      → 1 ≤ length es
      → All (λ e. HasKey t k (e.0 + rel)) es
      → k < 2 ^ 24
  key_bound k rel [] some a = absurd (omega arith)
  key_bound k rel (e ∷ es) some ((_, key), _) = omega (arith, key32-lt t (e.0 + rel) bytes)

  Described : List ℕ → ℕ → Columns → (ℕ → ℕ) → Columns → Type 0
  Described blocks rel w c w' =
      Holds t w'.lists (λ p. c p + count p (at_column rel blocks))
      × Ready blocks rel w'
      × Clean w'
      × (w'.dirty ≡ w.dirty)
      × (w'.lists.arena ≡ w.lists.arena)
      × (length w'.lists.descs ≤ length w.lists.descs + length w.entries)

  pub extended :
      (s : Lists) (c : ℕ → ℕ) (blocks : List ℕ) (es : List Entry) (rel : ℕ) (new : List Desc)
      → Holds t s c
      → ((q : ℕ) → count q (bases es) ≡ count q blocks)
      → All (IsDesc t s.arena) new
      → all_places t s.arena new ≡ at_column rel (bases es)
      → Holds t
          (record { arena = s.arena; descs = s.descs ++ new })
          (λ p. c p + count p (at_column rel blocks))
  extended s c blocks es rel new holds same a named =
      let more : s.arena ++ [] ≡ s.arena = append-nil s.arena in
      subst
        (λ l.
          Holds t (record { arena = l; descs = s.descs ++ new })
            (λ p. c p + count p (at_column rel blocks)))
        more
        (Holds-extend t s c (λ p. count p (at_column rel blocks)) [] new holds
          (subst (λ l. All (IsDesc t l) new) (sym more) a)
          (λ p.
            ap (λ l. count p (all_places t l new)) more
            ∙ ap (count p) named
            ∙ same_places es blocks rel p same))

  column_descs_lem :
      (es : List Entry) (k0 off : ℕ) (u d : Bool) (s : Lists) (c : ℕ → ℕ) (blocks : List ℕ)
      (rel : ℕ)
      → let w : Columns = record {
        entries = es;
        k0 = k0;
        uniform = u;
        dirty = d;
        arena_off = off;
        lists = s;
      } in
        rel < 256
        → 1 ≤ length es
        → length es < 2 ^ 12
        → length s.arena ≤ 2 ^ 20
        → Holds t s c
        → Ready blocks rel w
        → Clean w
        → Described blocks rel w c (column_descs rel w)
  unfolding column_descs Described
  column_descs_lem es k0 off true d s c blocks rel hr some few space holds ready clean =
      let (keyed, chain, same, len) = ready in
      let room =
        Slice-room s.arena (bases es) off (omega (arith, length-map (λ (e : Entry). e.0) es))
          clean in
      let sized = length-map (λ (e : Entry). e.0) es in
      let (d, named) =
        make_desc-IsDesc t s.arena (bases es) k0 rel off (length es) small
          (key_bound k0 rel es some keyed) hr (omega arith) few
          (subst (λ l. take l (drop off s.arena) ≡ bases es) sized clean) sized
          (key_places k0 rel es keyed, chain) in
      (
        extended s c blocks es rel (make_desc k0 rel off (length es) ∷ []) holds same (d, tt)
            (append-nil _ ∙ named),
        ready,
        clean,
        refl,
        refl,
        omega (arith, length-append s.descs (make_desc k0 rel off (length es) ∷ [])),
      )
  column_descs_lem es k0 off false d s c blocks rel hr some few space holds ready clean =
      let (keyed, chain, same, len) = ready in
      let sized = length-map (λ (e : Entry). e.0) es in
      let room = Slice-room s.arena (bases es) off (omega arith) clean in
      let new : List Desc = group_descs rel off es in
      let (valid, named) =
        group_descs-IsDesc t s.arena bytes small rel off hr es keyed chain clean (omega arith)
          few in
      let holds' = extended s c blocks es rel new holds same valid named in
      let grown : length (s.descs ++ new) ≤ length s.descs + length es =
        omega (arith, length-append s.descs new, length-group_descs rel off es) in
      elim (Bool-cases (length new == 1)) [
        | inl one ↦
            let alike = group_descs-one rel off es ((==_iff (length new) 1).0 one) in
            rw one
              (holds', (keyed-first es rel keyed alike, chain, same, len), clean, refl, refl, grown)
        | inr several ↦ rw several (holds', ready, clean, refl, refl, grown)
      ]

  -- A column leaves a clean state, and adds the places of the column to what the lists name.
  pub emit_column_lem :
      (w : Columns) (c : ℕ → ℕ) (blocks : List ℕ) (rel : ℕ)
      → rel < 256
      → 1 ≤ length w.entries
      → length w.entries < 2 ^ 12
      → length w.lists.arena + length w.entries ≤ 2 ^ 20
      → (w.dirty ≡ true) ⊎ Clean w
      → Holds t w.lists c
      → Ready blocks rel w
      → Holds t (emit_column rel w).lists (λ p. c p + count p (at_column rel blocks))
        × Ready blocks rel (emit_column rel w)
        × Clean (emit_column rel w)
        × ((emit_column rel w).dirty ≡ false)
        × (length (emit_column rel w).lists.arena ≤ length w.lists.arena + length w.entries)
        × (length (emit_column rel w).lists.descs ≤ length w.lists.descs + length w.entries)
  unfolding emit_column Described
  emit_column_lem w c blocks rel hr some few space clean holds ready =
      let f = flush w in
      let (fh, fr, fc, fd, fa, fl, fe) =
        flush_lem w.entries w.k0 w.arena_off w.uniform w.dirty w.lists c blocks rel clean holds
          ready in
      let (h, r, cl, d, a, l) =
        column_descs_lem f.entries f.k0 f.arena_off f.uniform f.dirty f.lists c blocks rel hr
          (omega arith) (omega arith) (omega arith) fh fr fc in
      (h, r, cl, d ∙ fd, omega (arith, ap length a), omega arith)
