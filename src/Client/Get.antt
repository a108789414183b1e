-- ===== src/Client/Get.antt =====
-- jitget on the names of one entry: the names, where the data goes, and the sizes.
use jit_dt.Common.{
  ℕ, ◌+◌, ◌≤◌, ◌≡◌, refl, sym, ap, ◌∙◌, List, [], ◌∷◌, ◌++◌, Option, none, some, Bytes, codes,
  length, All, map, arith, take, ℤ, pos, All-append,
}
use jit_dt.Common.Outcome.{Outcome, ret}
use jit_dt.Common.Arrays.{
  snoc-append, append_assoc, append_nil, load_behind, store_behind, length-snoc,
}
use jit_dt.Client.{
  ftype_num, Reading, got, Got, read_size, written_at, get_loop, cut_separator, jitget,
}
use jit_dt.Client.Names.{IsName, slots, septype-line}
use jit_dt.Kwatch.Transfer.{line}

abbrev pub sum : List ℕ → ℕ
sum [] = 0
sum (n ∷ ns) = n + sum ns

got_eq :
    {f f' : Bytes} {w w' : List (ℕ × Bytes)} {p p' : ℕ} {s s' : List ℤ}
    → f ≡ f'
    → w ≡ w'
    → p ≡ p'
    → s ≡ s'
    → ◌≡◌ {A = Outcome Got}
        (ret (record { fname = f; written = w; ptr = p; sizes = s }))
        (ret (record { fname = f'; written = w'; ptr = p'; sizes = s' }))
got_eq a b c d = cc

module _ (read : Bytes → ℕ → Reading) where
  -- where the files of the names are written from `ptr` on, and the sizes that are read
  abbrev pub pieces : Bytes → ℕ → List Bytes → List ℕ → List (ℕ × Bytes)
  pieces place ptr [] bs = []
  pieces place ptr (x ∷ xs) [] = []
  pieces place ptr (x ∷ xs) (b ∷ bs) =
      written_at ptr (read (place ++ x) b) ++ pieces place (ptr + b) xs bs

  abbrev pub counts : Bytes → List Bytes → List ℕ → List ℤ
  counts place [] bs = []
  counts place (x ∷ xs) [] = []
  counts place (x ∷ xs) (b ∷ bs) = read_size (read (place ++ x) b) ∷ counts place xs bs

  get_loop-run :
      (place : Bytes) (fpre : List (Option Bytes)) (xs : List Bytes) (fpost : List (Option Bytes))
      (bpre bs : List ℕ) (spre : List ℤ) (fname : Bytes) (written : List (ℕ × Bytes)) (ptr i : ℕ)
      → length bs ≡ length xs
      → i ≡ length fpre
      → length bpre ≡ i
      → length spre ≡ i
      → get_loop read place
          (fpre ++ (map some xs ++ fpost))
          (bpre ++ bs)
          (length xs)
          i
          (record { fname = fname; written = written; ptr = ptr; sizes = spre ++ map pos bs })
        ≡ ret (record {
          fname = fname ++ line xs;
          written = written ++ pieces place ptr xs bs;
          ptr = ptr + sum bs;
          sizes = spre ++ counts place xs bs;
        })
  unfolding get_loop
  get_loop-run place fpre [] fpost bpre [] spre fname written ptr i hb hf hp hs =
      got_eq (sym (append_nil fname)) (sym (append_nil written)) (omega arith) refl
  get_loop-run place fpre [] fpost bpre (b ∷ bs) spre fname written ptr i hb hf hp hs =
      absurd (omega arith)
  get_loop-run place fpre (x ∷ xs) fpost bpre [] spre fname written ptr i hb hf hp hs =
      absurd (omega arith)
  get_loop-run place fpre (x ∷ xs) fpost bpre (b ∷ bs) spre fname written ptr i hb hf hp hs =
      let r = read (place ++ x) b in
      let ih =
        get_loop-run place (fpre ++ (some x ∷ [])) xs fpost (bpre ++ (b ∷ [])) bs
          (spre ++ (read_size r ∷ [])) (fname ++ x ++ codes ";") (written ++ written_at ptr r)
          (ptr + b) (i + 1) (omega arith) (omega (arith, length-snoc fpre (some x)))
          (omega (arith, length-snoc bpre b)) (omega (arith, length-snoc spre (read_size r))) in
      let files = load_behind fpre (some x) (map some xs ++ fpost) i hf in
      let size = load_behind bpre b bs i (omega arith) in
      let sizes = store_behind spre (pos b) (read_size r) (map pos bs) i (omega arith) in
      let here =
        (rw
          (
            snoc-append fpre (some x) (map some xs ++ fpost),
            snoc-append bpre b bs,
            snoc-append spre (read_size r) (map pos bs),
          )
          at ih) in
      rw (files, size, sizes)
        (here
          ∙ got_eq
              (ap (λ t. t ++ line xs) (append_assoc fname x (codes ";"))
                ∙ append_assoc fname (x ++ codes ";") (line xs))
              (append_assoc written (written_at ptr r) (pieces place (ptr + b) xs bs)) (omega arith)
              (snoc-append spre (read_size r) (counts place xs bs)))

  piece-within :
      (ptr b m : ℕ) (r : Reading)
      → ((c : Bytes) → r ≡ got c → length c ≤ b)
      → All (λ w. w.0 + length w.1 ≤ ptr + (b + m)) (written_at ptr r)
  piece-within ptr b m (got c) h = (omega (arith, h c refl), tt)
  piece-within ptr b m _ h = tt

  pieces-within :
      (place : Bytes) (ptr : ℕ) (xs : List Bytes) (bs : List ℕ)
      → ((p : Bytes) (n : ℕ) (b : Bytes) → read p n ≡ got b → length b ≤ n)
      → All (λ w. w.0 + length w.1 ≤ ptr + sum bs) (pieces place ptr xs bs)
  pieces-within place ptr [] bs honest = tt
  pieces-within place ptr (x ∷ xs) [] honest = tt
  pieces-within place ptr (x ∷ xs) (b ∷ bs) honest =
      let total : ptr + b + sum bs ≡ ptr + (b + sum bs) = omega arith in
      let rest = pieces-within place (ptr + b) xs bs honest in
      All-append (λ w. w.0 + length w.1 ≤ ptr + (b + sum bs)) (written_at ptr (read (place ++ x) b))
        (pieces place (ptr + b) xs bs)
        (piece-within ptr b (sum bs) (read (place ++ x) b) (honest (place ++ x) b))
        (rw total at rest)

pub take-snoc :
    (c : ℕ) (t : Bytes) (y : ℕ) → take (length (t ++ (y ∷ []))) (c ∷ (t ++ (y ∷ []))) ≡ c ∷ t
take-snoc c [] y = refl
take-snoc c (d ∷ t) y = ap (◌∷◌ c) (take-snoc d t y)

cut-snoc :
    (t : Bytes) (y : ℕ) (g : Got)
    → g.fname ≡ t ++ (y ∷ [])
    → cut_separator g ≡ ret (record g { fname = t })
unfolding cut_separator
cut-snoc [] y g e = rw e refl
cut-snoc (c ∷ t) y g e = rw (e, take-snoc c t y) refl

pub line-snoc : (x : Bytes) (xs : List Bytes) → (t : Bytes) × (line (x ∷ xs) ≡ t ++ codes ";")
line-snoc x [] = (x, append_nil (x ++ codes ";"))
line-snoc x (y ∷ ys) =
    let (t, e) = line-snoc y ys in
    (
      x ++ codes ";" ++ t,
      ap (λ r. x ++ codes ";" ++ r) e ∙ sym (append_assoc (x ++ codes ";") t (codes ";")),
    )

slots_three :
    (xs : List Bytes)
    → length xs ≤ ftype_num
    → (post : List (Option Bytes)) × (slots ftype_num xs ≡ map some xs ++ post)
slots_three [] h = (none ∷ [], refl)
slots_three (x ∷ []) h = (none ∷ [], refl)
slots_three (x ∷ y ∷ []) h = (none ∷ [], refl)
slots_three (x ∷ y ∷ z ∷ []) h = ([], refl)
slots_three (x ∷ y ∷ z ∷ w ∷ xs) h = absurd (omega arith)

-- What jitget gives for the names `x ∷ xs`: the line of names without its last separator, every file
-- at the offset of its entry, the sizes read, and nothing behind the sum of the entries' sizes.
pub record Gets (read : Bytes → ℕ → Reading) (place : Bytes) (x : Bytes) (xs : List Bytes)
    (bs : List ℕ) (r : Outcome (Option Got)) : Type 0 where
  pub result : Got
  pub returned : r ≡ ret (some result)
  pub names : line (x ∷ xs) ≡ result.fname ++ codes ";"
  pub pieces_eq : result.written ≡ pieces read place 0 (x ∷ xs) bs
  pub sizes : result.sizes ≡ counts read place (x ∷ xs) bs
  pub within : All (λ w. w.0 + length w.1 ≤ sum bs) result.written

-- If a read gives at most the size it asks for, then for a lock file with the line of 1 to 3 names
-- without a `;`, and a size for each of them, jitget returns 0; the names are that line without its
-- last separator, the file of every name is written at the offset of its entry, the sizes are those
-- read, and nothing is written behind the sum of the sizes given.
pub jitget_lem :
    (read : Bytes → ℕ → Reading) (place : Bytes) (x : Bytes) (xs : List Bytes) (bs : List ℕ)
    → ((p : Bytes) (n : ℕ) (b : Bytes) → read p n ≡ got b → length b ≤ n)
    → All IsName (x ∷ xs)
    → length (x ∷ xs) ≤ ftype_num
    → length bs ≡ length (x ∷ xs)
    → Gets read place x xs bs (jitget read place (some (line (x ∷ xs))) bs (length (x ∷ xs)))
unfolding jitget
jitget_lem read place x xs bs honest hn hl hb =
    let (post, e) = slots_three (x ∷ xs) hl in
    let (t, et) = line-snoc x xs in
    let files = septype-line (x ∷ xs) hn ∙ e in
    let run = get_loop-run read place [] (x ∷ xs) post [] bs [] [] [] 0 0 hb refl refl refl in
    let none_before : 0 + sum bs ≡ sum bs = omega arith in
    let inside = pieces-within read place 0 (x ∷ xs) bs honest in
    let all : Got = record {
      fname = line (x ∷ xs);
      written = pieces read place 0 (x ∷ xs) bs;
      ptr = 0 + sum bs;
      sizes = counts read place (x ∷ xs) bs;
    } in
    let cut = cut-snoc t b';' all et in
    record {
      result = record all { fname = t };
      returned = rw (files, run, cut) refl;
      names = et;
      pieces_eq = refl;
      sizes = refl;
      within = (rw none_before at inside);
    }
