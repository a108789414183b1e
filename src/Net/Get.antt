-- ===== src/Net/Get.antt =====
-- jitget over the socket: every entry of a reply goes to the place of its entry.
use jit_dt.Common.{
  ℕ, zero, suc, ◌+◌, ◌≤◌, ◌<◌, ◌≡◌, refl, ap, ◌∙◌, true, List, [], ◌∷◌, ◌++◌, Option, some, Bytes,
  length, take, drop, arith, length-append, ℤ, pos, All, get_or,
}
use jit_dt.Common.Arrays.{take-front, drop-front, append_assoc}
use jit_dt.Net.{
  Stream, Layout, TransCmd, strcmd, transopt_size, request_bytes, netwrite, trans_replyget, size_t,
  fetch_loop, request, fetched, fetch_data, fetch_reply, fetch, jitget,
}
use jit_dt.Net.Read.{pending, chunks, netread-Reads}
use jit_dt.Net.Request.{Packs, netread-Header}

-- the data of a reply one after the other, the sizes that it announces, and where the data goes
abbrev pub joined : List Bytes → Bytes
joined [] = []
joined (d ∷ ds) = d ++ joined ds

abbrev pub announced : List Bytes → List ℤ
announced [] = []
announced (d ∷ ds) = pos (length d) ∷ announced ds

abbrev pub places : ℕ → List ℕ → List Bytes → List (ℕ × Bytes)
places ptr (b ∷ size) (d ∷ ds) = (ptr, d) ∷ places (ptr + b) size ds
places ptr _ _ = []

take-short : (xs : List ℕ) (n : ℕ) → length xs ≤ n → take n xs ≡ xs
take-short [] zero h = refl
take-short [] (suc n) h = refl
take-short (x ∷ xs) zero h = absurd (omega arith)
take-short (x ∷ xs) (suc n) h = ap (◌∷◌ x) (take-short xs n (omega arith))

take-announced :
    (ds : List Bytes) (pad : List ℤ) (n : ℕ)
    → n ≡ length ds
    → take n (announced ds ++ pad) ≡ announced ds
take-announced [] pad zero h = refl
take-announced [] pad (suc n) h = absurd (omega arith)
take-announced (d ∷ ds) pad zero h = absurd (omega arith)
take-announced (d ∷ ds) pad (suc n) h =
    ap (◌∷◌ (pos (length d))) (take-announced ds pad n (omega arith))

fetch_loop-places :
    (f : ℕ) (s : Stream) (ptr : ℕ) (size : List ℕ) (ds : List Bytes) (pad : List ℤ) (more : Bytes)
    → length size ≡ length ds
    → All (λ d. 0 < length d) ds
    → chunks s < f
    → pending s ≡ joined ds ++ more
    → fetch_loop f s ptr size (announced ds ++ pad) ≡ some (places ptr size ds)
unfolding fetch_loop size_t
fetch_loop-places f s ptr [] ds pad more hl hd hf e = refl
fetch_loop-places f s ptr (b ∷ size) [] pad more hl hd hf e = absurd (omega arith)
fetch_loop-places f s ptr (b ∷ size) (d ∷ ds) pad more hl hd hf e =
    let split = e ∙ append_assoc d (joined ds) more in
    let long = length-append d (joined ds ++ more) in
    let r = netread-Reads f s (length d) hf (omega (arith, long, ap length split)) hd.0 in
    let front = ap (take (length d)) split ∙ take-front d (joined ds ++ more) (length d) refl in
    let left =
      r.left ∙ ap (drop (length d)) split ∙ drop-front d (joined ds ++ more) (length d) refl in
    let rest =
      fetch_loop-places f r.rest (ptr + b) size ds pad more (omega arith) hd.1
        (omega (arith, r.chunks_le)) left in
    rw (fetch_loop, r.returned, front, rest) refl

-- the structure of a reply
abbrev pub answers : ℕ → Bytes → List ℤ → ℕ → TransCmd
answers date name opts n = record {
  cmd = get_or strcmd 7 [];
  opt = opts;
  date = date;
  str = take 255 name;
  len = n;
}

fetch_data-places :
    (f : ℕ) (size : List ℕ) (r : Stream) (date : ℕ) (name : Bytes) (ds : List Bytes) (pad : List ℤ)
    (n : ℕ)
    → length size ≡ length ds
    → fetch_loop f r 0 size (announced ds ++ pad) ≡ some (places 0 size ds)
    → fetch_data f size r (answers date name (announced ds ++ pad) n)
      ≡ fetched (take 255 (take 255 name)) (places 0 size ds) (announced ds)
unfolding fetch_data
fetch_data-places f size r date name ds pad n hl e =
    rw (fetch_data, e)
      (ap (fetched (take 255 (take 255 name)) (places 0 size ds))
        (take-announced ds pad (length size) hl))

-- If the request can be sent and the structure of the reply can be read from its bytes, then for at
-- most 3 sizes and as many entries of data, none of them empty, and any pieces in which the reply
-- of trans_replyget and other bytes arrive, jitget, with more fuel than pieces, gives the name of
-- the reply, writes each entry at the sum of the sizes asked for before it, and sets the sizes to
-- those of the entries.
pub jitget-replyget :
    (l : Layout) (f : ℕ) (sends : List (Option ℕ)) (s : Stream) (size : List ℕ) (ds : List Bytes)
    (pad : List ℤ) (date : ℕ) (name more : Bytes)
    → Packs l (answers date name (announced ds ++ pad) (length (joined ds)))
    → (netwrite sends (request_bytes l 3 (request size))).1 ≡ true
    → length size ≤ transopt_size
    → length size ≡ length ds
    → All (λ d. 0 < length d) ds
    → chunks s < f
    → pending s ≡ trans_replyget l date name (joined ds) (announced ds ++ pad) ++ more
    → (jitget l f sends s size).1
      ≡ fetched (take 255 (take 255 name)) (places 0 size ds) (announced ds)
unfolding jitget fetch fetch_reply trans_replyget
jitget-replyget l f sends s size ds pad date name more p hs h3 hl hd hf e =
    let c = answers date name (announced ds ++ pad) (length (joined ds)) in
    let split = e ∙ append_assoc (l.pack c) (joined ds) more in
    let r = netread-Header l c (joined ds ++ more) s f p hf split in
    let run =
      fetch_loop-places f r.rest 0 size ds pad more hl hd (omega (arith, r.chunks_le)) r.left in
    ap (λ asked. (fetch l f sends s asked).1) (take-short size transopt_size h3)
    ∙ (rw (fetch, hs, r.returned)
        (ap (fetch_data f size r.rest) p.same
          ∙ fetch_data-places f size r.rest date name ds pad (length (joined ds)) hl run))
