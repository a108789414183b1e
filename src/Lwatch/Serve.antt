-- ===== src/Lwatch/Serve.antt =====
-- The GET command of lwatcher: what a reply holds, and what becomes of the history.
use jit_dt.Common.{
  ℕ, suc, ◌+◌, ◌^◌, ◌≤◌, ◌<◌, ◌≡◌, refl, ltb, leb, ◌==◌, length-append, negsuc, ap, ◌∙◌, Bool, true,
  false, List, [], ◌∷◌, ◌++◌, Option, some, Bytes, codes, length, drop, ℤ, pos, pos_part, map,
  arith,
}
use jit_dt.Common.Outcome.{ret, load, load-eq-get_or}
use jit_dt.Hist.{Hist, entry, unlinks, empty_data, histget}
use jit_dt.Hist.Valid.{IsValid, pending, entry_at, removed_slot}
use jit_dt.Hist.Take.{histremove_lem}
use jit_dt.Client.{Reading, got}
use jit_dt.Client.Get.{take-snoc, line-snoc}
use jit_dt.Kwatch.Transfer.{line}
use jit_dt.Net.{size_t}
use jit_dt.Net.Get.{joined}
use jit_dt.Lwatch.{
  Server, files, served, all_there, asked, Collected, total, fitting, collect, cut, after_get,
  cmd_get,
}

module _ (read_at : Bytes → ℕ → ℕ → Reading) where
  -- For every name a size above 0, and the bytes that a read of that size gives, which are not more.
  abbrev pub AllRead : List Bytes → List ℤ → List Bytes → Type 0
  AllRead [] opt ds = ds ≡ []
  AllRead (x ∷ xs) (pos k ∷ opt) (d ∷ ds) =
      (0 < k) × (read_at x 0 k ≡ got d) × (length d ≤ k) × AllRead xs opt ds
  AllRead (x ∷ xs) _ _ = ⊥

  all_there-some :
      (xs : List Bytes) (post : List (Option Bytes))
      → all_there (length xs) (map some xs ++ post) ≡ ret true
  unfolding all_there
  all_there-some [] post = refl
  all_there-some (x ∷ xs) post = all_there-some xs post

  asked-AllRead :
      (xs : List Bytes) (opt : List ℤ) (ds : List Bytes)
      → AllRead xs opt ds
      → asked (length xs) opt ≡ ret (length xs)
  unfolding asked
  asked-AllRead [] opt ds h = refl
  asked-AllRead (x ∷ xs) [] ds h = absurd h
  asked-AllRead (x ∷ xs) (pos k ∷ opt) [] h = absurd h
  asked-AllRead (x ∷ xs) (negsuc k ∷ opt) ds h = absurd h
  asked-AllRead (x ∷ xs) (pos k ∷ opt) (d ∷ ds) h =
      let some_size : (k == 0) ≡ false = ground (arith, h.0) in
      rw (asked, some_size, asked-AllRead xs opt ds h.3) refl

  -- the sum of the first sizes of a request
  abbrev pub sum_asked : ℕ → List ℤ → ℕ
  sum_asked (suc n) (pos k ∷ opt) = k + sum_asked n opt
  sum_asked _ _ = 0

  total-AllRead :
      (xs : List Bytes) (opt : List ℤ) (ds : List Bytes) (t : ℕ)
      → AllRead xs opt ds
      → t + sum_asked (length xs) opt < 2 ^ 31
      → total (length xs) opt (pos t) ≡ ret (pos (t + sum_asked (length xs) opt))
  unfolding total
  total-AllRead [] opt ds t h hs = ap (λ n. ret (pos n)) (omega arith)
  total-AllRead (x ∷ xs) [] ds t h hs = absurd h
  total-AllRead (x ∷ xs) (pos k ∷ opt) [] t h hs = absurd h
  total-AllRead (x ∷ xs) (negsuc k ∷ opt) ds t h hs = absurd h
  total-AllRead (x ∷ xs) (pos k ∷ opt) (d ∷ ds) t h hs =
      let small : ltb (t + k) (2 ^ 31) ≡ true = ground (arith, hs) in
      rw (total, small)
        (total-AllRead xs opt ds (t + k) h.3 (omega (arith, hs))
          ∙ ap (λ n. ret (pos n)) (omega arith))

  length-joined :
      (xs : List Bytes) (opt : List ℤ) (ds : List Bytes)
      → AllRead xs opt ds
      → length (joined ds) ≤ sum_asked (length xs) opt
  length-joined [] opt [] h = omega arith
  length-joined [] opt (d ∷ ds) h = cc
  length-joined (x ∷ xs) [] ds h = absurd h
  length-joined (x ∷ xs) (pos k ∷ opt) [] h = absurd h
  length-joined (x ∷ xs) (negsuc k ∷ opt) ds h = absurd h
  length-joined (x ∷ xs) (pos k ∷ opt) (d ∷ ds) h =
      omega (arith, h.2, length-append d (joined ds), length-joined xs opt ds h.3)

  abbrev pub set_sizes : List Bytes → List (Option ℤ)
  set_sizes [] = []
  set_sizes (d ∷ ds) = some (pos (length d)) ∷ set_sizes ds

  collect-AllRead :
      (xs : List Bytes) (opt : List ℤ) (ds : List Bytes) (post : List (Option Bytes))
      → AllRead xs opt ds
      → collect read_at (length xs) (map some xs ++ post) opt
        ≡ ret (record { tmpstr = line xs; data_read = joined ds; retval = set_sizes ds })
  unfolding collect size_t
  collect-AllRead [] opt [] post h = refl
  collect-AllRead [] opt (d ∷ ds) post h = cc
  collect-AllRead (x ∷ xs) [] ds post h = absurd h
  collect-AllRead (x ∷ xs) (pos k ∷ opt) [] post h = absurd h
  collect-AllRead (x ∷ xs) (negsuc k ∷ opt) ds post h = absurd h
  collect-AllRead (x ∷ xs) (pos k ∷ opt) (d ∷ ds) post h =
      rw (collect, h.1, collect-AllRead xs opt ds post h.3) refl

fitting-small :
    (t : ℕ) (c : Collected)
    → length c.tmpstr < 256
    → length c.data_read ≤ t
    → fitting (pos t) c ≡ ret c
unfolding fitting size_t
fitting-small t c h k =
    let names : leb (length c.tmpstr) 255 ≡ true = ground arith in
    let bytes : leb (length c.data_read) t ≡ true = ground arith in rw (fitting, names, bytes) refl

pub histget-entry : {h : Hist} → IsValid h → 0 < pos_part h.numhist → histget h ≡ entry h.conshistp
unfolding histget
histget-entry {h} v hp = ground (arith, v.counted)

pub load_front : {h : Hist} → IsValid h → load h.history h.conshistp ≡ ret (entry_at h h.conshistp)
load_front {h} v =
    load-eq-get_or h.history h.conshistp empty_data
      (omega (arith, v.sized.size, v.sized.nhist_hi, v.sized.cons_in))

cut-snoc :
    (read_at : Bytes → ℕ → ℕ → Reading) (t : Bytes) (y : ℕ) → cut read_at (t ++ (y ∷ [])) ≡ ret t
unfolding cut
cut-snoc read_at [] y = refl
cut-snoc read_at (c ∷ t) y = ap ret (take-snoc c t y)

-- A reply to GET, and the history behind it.
pub record Answered (read_at : Bytes → ℕ → ℕ → Reading) (h : Hist) (tfd : Option (Bytes × ℕ))
    (x : Bytes) (xs : List Bytes) (opt : List ℤ) (ds : List Bytes) : Type 0 where
  pub names : Bytes
  pub names_eq : line (x ∷ xs) ≡ names ++ codes ";"
  pub hist : Hist
  pub valid : IsValid hist
  pub taken : pending hist ≡ drop 1 (pending h)
  pub sent :
      cmd_get read_at
        (record { memory = true; sends = true })
        (record { hist = h; nsize = length (x ∷ xs); tfd = tfd })
        opt
      ≡ ret (
          served
            (record { hist = hist; nsize = length (x ∷ xs); tfd = tfd })
            (some (files (entry_at h h.conshistp).date names (joined ds) (set_sizes read_at ds)))
            (unlinks (entry_at h (removed_slot h)).fname)
            false)
  pub not_sent :
      cmd_get read_at
        (record { memory = true; sends = false })
        (record { hist = h; nsize = length (x ∷ xs); tfd = tfd })
        opt
      ≡ ret (
          served
            (record { hist = h; nsize = length (x ∷ xs); tfd = tfd })
            (some (files (entry_at h h.conshistp).date names (joined ds) (set_sizes read_at ds)))
            []
            false)

cmd_get-after :
    (read_at : Bytes → ℕ → ℕ → Reading) (b : Bool) (h : Hist) (tfd : Option (Bytes × ℕ)) (x : Bytes)
    (xs : List Bytes) (post : List (Option Bytes)) (opt : List ℤ) (ds : List Bytes) (names : Bytes)
    → IsValid h
    → 0 < pos_part h.numhist
    → (entry_at h h.conshistp).fname ≡ map some (x ∷ xs) ++ post
    → AllRead read_at (x ∷ xs) opt ds
    → length (line (x ∷ xs)) < 256
    → sum_asked read_at (length (x ∷ xs)) opt < 2 ^ 31
    → line (x ∷ xs) ≡ names ++ codes ";"
    → let s : Server = record { hist = h; nsize = length (x ∷ xs); tfd = tfd } in
      cmd_get read_at (record { memory = true; sends = b }) s opt
      ≡ after_get read_at b s
          (files (entry_at h h.conshistp).date names (joined ds) (set_sizes read_at ds))
unfolding cmd_get
cmd_get-after read_at b h tfd x xs post opt ds names v hp hf hr hl hs e =
    let there = all_there-some read_at (x ∷ xs) post in
    let n = asked-AllRead read_at (x ∷ xs) opt ds hr in
    let c = collect-AllRead read_at (x ∷ xs) opt ds post hr in
    let sum = sum_asked read_at (length (x ∷ xs)) opt in
    let z : total (length (x ∷ xs)) opt (pos 0) ≡ ret (pos sum) =
      total-AllRead read_at (x ∷ xs) opt ds 0 hr (omega (arith, hs))
      ∙ ap (λ n. ret (pos n)) (omega arith) in
    let bytes = length-joined read_at (x ∷ xs) opt ds hr in
    let fits =
      fitting-small sum
        (record { tmpstr = line (x ∷ xs); data_read = joined ds; retval = set_sizes read_at ds }) hl
        (omega (arith, bytes)) in
    let front = histget-entry v hp in
    let read = load_front v in
    rw (cmd_get, front, read, hf, there, n, z, c, fits, e, cut-snoc read_at names b';') refl

-- For a well-formed history with a pending entry, the names of all types in the oldest one, shorter
-- than 256 bytes with a separator behind each, a size above 0 for each of them, whose sum is an int,
-- bytes read for each, at most its size, and memory given by malloc: the reply to GET holds the date
-- of that entry, the names with separators between them, the bytes one after the other, and their
-- sizes. If it can be sent, exactly the oldest entry is taken off the history, which stays well
-- formed; if not, the history is left as it was.
pub cmd_get-Answered :
    (read_at : Bytes → ℕ → ℕ → Reading) (h : Hist) (tfd : Option (Bytes × ℕ)) (x : Bytes)
    (xs : List Bytes) (post : List (Option Bytes)) (opt : List ℤ) (ds : List Bytes)
    → IsValid h
    → 0 < pos_part h.numhist
    → (entry_at h h.conshistp).fname ≡ map some (x ∷ xs) ++ post
    → AllRead read_at (x ∷ xs) opt ds
    → length (line (x ∷ xs)) < 256
    → sum_asked read_at (length (x ∷ xs)) opt < 2 ^ 31
    → Answered read_at h tfd x xs opt ds
unfolding after_get
cmd_get-Answered read_at h tfd x xs post opt ds v hp hf hr hl hs =
    let (t, et) = line-snoc x xs in
    let (r, er, w, q) = histremove_lem v hp in
    let run = λ (b : Bool). cmd_get-after read_at b h tfd x xs post opt ds t v hp hf hr hl hs et in
    record {
      names = t;
      names_eq = et;
      hist = r;
      valid = w;
      taken = q;
      sent = run true ∙ (rw (after_get, er) refl);
      not_sent = run false;
    }
