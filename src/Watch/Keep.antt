-- ===== src/Watch/Keep.antt =====
-- rm_watch: a queue of ten directories, whose watch is removed when the eleventh comes.
use jit_dt.Common.{
  ℕ, zero, suc, ◌+◌, ◌-◌, ◌%◌, ◌<◌, ◌≡◌, refl, sym, ap, ◌∙◌, List, [], ◌∷◌, ◌++◌, map, length, take,
  replicate, arith, All, ltb, lt→ltb, if◌then◌else◌, Bool-cases, inl, inr,
}
use jit_dt.Common.Outcome.{ret, ◌>>=◌}
use native.Mathlib.Nat.{mod-eq_of_lt}
use jit_dt.Common.Arrays.{
  append_nil, append_assoc, snoc-append, length-snoc, load_behind, store_behind,
}
use jit_dt.Watch.{Watch, removed, Run, max_keepdir, rm_watch, kept}

-- a sequence of calls of rm_watch
abbrev pub rm_all : Watch → List ℕ → Run
rm_all s [] = ret (s, [])
rm_all s (wd ∷ wds) =
    rm_watch s wd
    >>= (λ x. let (s1, es) = x in rm_all s1 wds >>= (λ y. let (s2, fs) = y in ret (s2, es ++ fs)))

-- The ring, taken apart at its index: `post` comes before `pre` in the order of the calls.
record IsRing (s : Watch) (pre post : List ℕ) : Type 0 where
  ring : s.qrmdir ≡ pre ++ post
  index : s.curqrmd ≡ length pre
  size : length pre + length post ≡ max_keepdir

record Kept (s : Watch) (order wds : List ℕ) : Type 0 where
  state : Watch
  returned : rm_all s wds ≡ ret (state, kept (take (length wds) (order ++ wds)))

kept_head : (o : ℕ) (q : List ℕ) → (if ltb 0 o then removed o ∷ [] else []) ++ kept q ≡ kept (o ∷ q)
unfolding kept
kept_head o q = elim (Bool-cases (ltb 0 o)) [ inl e ↦ rw e refl | inr e ↦ rw e refl ]

-- One call: the oldest leaves and the new one comes last.
record Turned (s : Watch) (pre post' : List ℕ) (o wd : ℕ) : Type 0 where
  state : Watch
  before : List ℕ
  after : List ℕ
  returned : rm_watch s wd ≡ ret (state, if ltb 0 o then removed o ∷ [] else [])
  is_ring : IsRing state before after
  more : 0 < length after
  order : after ++ before ≡ (post' ++ pre) ++ (wd ∷ [])

rm_watch-Turned :
    (s : Watch) (pre post' : List ℕ) (o wd : ℕ) → IsRing s pre (o ∷ post') → Turned s pre post' o wd
unfolding rm_watch
rm_watch-Turned s pre [] o wd r =
    let read = load_behind pre o [] s.curqrmd r.index in
    let write = store_behind pre o wd [] s.curqrmd r.index in
    let wraps : (s.curqrmd + 1) % max_keepdir ≡ 0 = omega (arith, r.index, r.size) in
    record {
      state = record s { qrmdir = pre ++ (wd ∷ []); curqrmd = 0 };
      before = [];
      after = pre ++ (wd ∷ []);
      returned = rw (rm_watch, r.ring, read, write, wraps) refl;
      is_ring = record {
        ring = refl;
        index = refl;
        size = omega (arith, length-snoc pre wd, r.size);
      };
      more = omega (arith, length-snoc pre wd);
      order = append_nil (pre ++ (wd ∷ []));
    }
rm_watch-Turned s pre (x ∷ xs) o wd r =
    let read = load_behind pre o (x ∷ xs) s.curqrmd r.index in
    let write = store_behind pre o wd (x ∷ xs) s.curqrmd r.index in
    let moves : (s.curqrmd + 1) % max_keepdir ≡ s.curqrmd + 1 =
      mod-eq_of_lt (omega (arith, r.index, r.size)) in
    record {
      state = record s { qrmdir = pre ++ (wd ∷ x ∷ xs); curqrmd = s.curqrmd + 1 };
      before = pre ++ (wd ∷ []);
      after = x ∷ xs;
      returned = rw (rm_watch, r.ring, read, write, moves) refl;
      is_ring = record {
        ring = sym (snoc-append pre wd (x ∷ xs));
        index = omega (arith, length-snoc pre wd, r.index);
        size = omega (arith, length-snoc pre wd, r.size);
      };
      more = omega arith;
      order = sym (append_assoc (x ∷ xs) pre (wd ∷ []));
    }

rm_all-Kept :
    (wds : List ℕ) (s : Watch) (pre post : List ℕ)
    → IsRing s pre post
    → 0 < length post
    → Kept s (post ++ pre) wds
unfolding kept
rm_all-Kept [] s pre post r h = record { state = s; returned = refl }
rm_all-Kept (wd ∷ wds) s pre [] r h = absurd (omega arith)
rm_all-Kept (wd ∷ wds) s pre (o ∷ post) r h =
    let t = rm_watch-Turned s pre post o wd r in
    let k = rm_all-Kept wds t.state t.before t.after t.is_ring t.more in
    let order : (t.after ++ t.before) ++ wds ≡ (post ++ pre) ++ (wd ∷ wds) =
      ap (λ q. q ++ wds) t.order ∙ snoc-append (post ++ pre) wd wds in
    record {
      state = k.state;
      returned =
          rw (t.returned, k.returned)
            (ap (λ es. ret (k.state, es))
              (ap (λ q. (if ltb 0 o then removed o ∷ [] else []) ++ kept (take (length wds) q))
                  order
                ∙ kept_head o (take (length wds) ((post ++ pre) ++ (wd ∷ wds)))));
    }

kept-pos : (wds : List ℕ) → All (λ wd. 0 < wd) wds → kept wds ≡ map removed wds
unfolding kept
kept-pos [] h = refl
kept-pos (wd ∷ wds) h = rw (kept, lt→ltb 0 wd h.0, kept-pos wds h.1) refl

All-take : (n : ℕ) (wds : List ℕ) → All (λ wd. 0 < wd) wds → All (λ wd. 0 < wd) (take n wds)
All-take zero wds h = tt
All-take (suc n) [] h = tt
All-take (suc n) (wd ∷ wds) h = (h.0, All-take n wds h.1)

kept-zeros :
    (k n : ℕ) (wds : List ℕ) → kept (take n (replicate k 0 ++ wds)) ≡ kept (take (n - k) wds)
unfolding kept
kept-zeros zero n wds = let e : n ≡ n - 0 = omega arith in ap (λ m. kept (take m wds)) e
kept-zeros (suc k) zero wds = let e : 0 ≡ 0 - suc k = omega arith in ap (λ m. kept (take m wds)) e
kept-zeros (suc k) (suc n) wds =
    let e : n - k ≡ suc n - suc k = omega arith in
    kept-zeros k n wds ∙ ap (λ m. kept (take m wds)) e

-- From a ring of zeros, a sequence of directories that rm_watch is called for keeps the last 10
-- watched: the watches removed are those of all before them, in their order.
pub rm_watch_delay :
    (s : Watch) (wds : List ℕ)
    → s.qrmdir ≡ replicate max_keepdir 0
    → s.curqrmd ≡ 0
    → All (λ wd. 0 < wd) wds
    → (r : Watch) × (rm_all s wds ≡ ret (r, map removed (take (length wds - max_keepdir) wds)))
rm_watch_delay s wds hq hc hp =
    let ring : IsRing s [] (replicate max_keepdir 0) = record {
      ring = hq;
      index = hc;
      size = omega arith;
    } in
    let k = rm_all-Kept wds s [] (replicate max_keepdir 0) ring (omega arith) in
    let n = length wds in
    (
      k.state,
      k.returned
          ∙ ap (λ es. ret (k.state, es))
              (kept-zeros max_keepdir n wds
                ∙ kept-pos (take (n - max_keepdir) wds) (All-take (n - max_keepdir) wds hp)),
    )
