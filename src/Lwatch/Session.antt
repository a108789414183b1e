-- ===== src/Lwatch/Session.antt =====
-- From the history of lwatcher to the buffers of a client: the client's request, the server's turn
-- and its reply over two streams that arrive in any pieces.
use jit_dt.Common.{
  ℕ, suc, ◌^◌, negsuc, ◌≤◌, ◌<◌, ◌≡◌, refl, sym, ap, subst, ◌∙◌, true, false, inl, inr, leb,
  Bool-cases, List, [], ◌∷◌, ◌++◌, Option, none, some, Bytes, codes, length, take, drop, ℤ, pos,
  pos_part, map, arith, All,
}
use jit_dt.Common.Outcome.{ret}
use jit_dt.Common.Arrays.{take-all, take-drop, take-front, length-snoc}
use jit_dt.Hist.{Hist, unlinks}
use jit_dt.Hist.Valid.{IsValid, entry_at, removed_slot}
use jit_dt.Hist.Valid
use jit_dt.Client.{Reading}
use jit_dt.Kwatch.Transfer.{line}
use jit_dt.Net.{
  Stream, Layout, TransCmd, transopt_size, request_bytes, netsendreq, netwrite, trans_getcmd,
  command, trans_replyget, request, fetched, jitget, fetch,
}
use jit_dt.Net.Read.{pending, chunks}
use jit_dt.Net.Request.{Packs, asks, getcmd-netsendreq}
use jit_dt.Net.Get.{joined, announced, places, answers, jitget-replyget}
use jit_dt.Net.File.{trans_replyopen, trans_replyread}
use jit_dt.Lwatch.{Server, Reply, opened, read, files, served, serve, cmd_get}
use jit_dt.Lwatch.Serve.{AllRead, sum_asked, set_sizes, cmd_get-Answered}

-- `retval` in memory: what nothing has set is what was there.
unfoldable pub retval_ints : List ℤ → List (Option ℤ) → List ℤ
retval_ints junk [] = junk
retval_ints [] (v ∷ vs) = []
retval_ints (j ∷ junk) (none ∷ vs) = j ∷ retval_ints junk vs
retval_ints (j ∷ junk) (some v ∷ vs) = v ∷ retval_ints junk vs

-- The bytes of a reply: the calls of `trans_replyopen`, `trans_replyread` and `trans_replyget`.
unfoldable pub reply_bytes : Layout → TransCmd → List ℤ → Reply → Bytes
reply_bytes l unset junk (opened name) = trans_replyopen l unset (some name) (pos 0)
reply_bytes l unset junk (read buf) = trans_replyread l unset buf
reply_bytes l unset junk (files date names cp retval) =
    trans_replyget l date names cp (retval_ints junk retval)

netwrite-all :
    (sends : List (Option ℕ)) (buf : Bytes)
    → (netwrite sends buf).1 ≡ true
    → (netwrite sends buf).0 ≡ buf
unfolding netwrite
netwrite-all [] buf h = cc
netwrite-all (none ∷ sends) buf h = cc
netwrite-all (some n ∷ sends) buf h = elim (Bool-cases (leb (length buf) n)) [
  | inl e ↦ rw (netwrite, e) refl
  | inr e ↦
      let more : (netwrite sends (drop n buf)).1 ≡ true = (rw (netwrite, e) at h) in
      rw (netwrite, e)
        (ap (λ r. take n buf ++ r) (netwrite-all sends (drop n buf) more) ∙ take-drop n buf)
]

jitget-sent :
    (l : Layout) (f : ℕ) (sends : List (Option ℕ)) (s : Stream) (size : List ℕ)
    → (jitget l f sends s size).0
      ≡ (netwrite sends (request_bytes l 3 (request (take transopt_size size)))).0
unfolding jitget fetch
jitget-sent l f sends s size = refl

snoc_inj : (t u : Bytes) (c : ℕ) → t ++ (c ∷ []) ≡ u ++ (c ∷ []) → t ≡ u
snoc_inj t u c e =
    let same : length t ≡ length u = omega (arith, length-snoc t c, length-snoc u c, ap length e) in
    sym (take-front t (c ∷ []) (length t) refl)
    ∙ ap (take (length t)) e
    ∙ take-front u (c ∷ []) (length t) (sym same)

retval_ints-set_sizes :
    (read_at : Bytes → ℕ → ℕ → Reading) (junk : List ℤ) (ds : List Bytes)
    → length ds ≤ length junk
    → retval_ints junk (set_sizes read_at ds) ≡ announced ds ++ drop (length ds) junk
unfolding retval_ints
retval_ints-set_sizes read_at junk [] h = refl
retval_ints-set_sizes read_at [] (d ∷ ds) h = absurd (omega arith)
retval_ints-set_sizes read_at (j ∷ junk) (d ∷ ds) h =
    ap (◌∷◌ (pos (length d))) (retval_ints-set_sizes read_at junk ds (omega arith))

-- the reply that the server's turn makes of the oldest entry
abbrev pub reply_of : (Bytes → ℕ → ℕ → Reading) → Hist → Bytes → List Bytes → Reply
reply_of read_at h names ds =
    files (entry_at h h.conshistp).date names (joined ds) (set_sizes read_at ds)

-- What the server reads, what its turn leaves, and what the client has at the end.
pub record Session (l : Layout) (f g : ℕ) (sends : List (Option ℕ)) (to_server to_client : Stream)
    (read_at : Bytes → ℕ → ℕ → Reading) (h : Hist) (tfd : Option (Bytes × ℕ)) (size : List ℕ)
    (names more : Bytes) (ds : List Bytes) : Type 0 where
  pub left : Stream
  pub asked : trans_getcmd l f to_server ≡ command 3 (request size) left
  pub others : pending left ≡ more
  pub hist : Hist
  pub valid : IsValid hist
  pub taken : Valid.pending hist ≡ drop 1 (Valid.pending h)
  pub turn :
      serve read_at
        record { memory = true; sends = true }
        record { hist = h; nsize = length size; tfd = tfd }
        3
        (request size)
      ≡ ret (
          served
            record { hist = hist; nsize = length size; tfd = tfd }
            (some (reply_of read_at h names ds))
            (unlinks (entry_at h (removed_slot h)).fname)
            false)
  pub got : (jitget l g sends to_client size).1 ≡ fetched names (places 0 size ds) (announced ds)

served-get :
    (read_at : Bytes → ℕ → ℕ → Reading) (s : Server) (opt : List ℤ)
    → serve read_at record { memory = true; sends = true } s 3 opt
      ≡ cmd_get read_at record { memory = true; sends = true } s opt
unfolding serve
served-get read_at s opt = refl

get_sent : (l : Layout) (opt : List ℤ) → netsendreq l 3 opt ≡ some (request_bytes l 3 opt)
unfolding netsendreq
get_sent l opt = refl

AllRead-length :
    (read_at : Bytes → ℕ → ℕ → Reading) (xs : List Bytes) (opt : List ℤ) (ds : List Bytes)
    → AllRead read_at xs opt ds
    → length ds ≡ length xs
AllRead-length read_at [] opt ds h = ap length h
AllRead-length read_at (x ∷ xs) [] ds h = absurd h
AllRead-length read_at (x ∷ xs) (pos k ∷ opt) [] h = absurd h
AllRead-length read_at (x ∷ xs) (negsuc k ∷ opt) ds h = absurd h
AllRead-length read_at (x ∷ xs) (pos k ∷ opt) (d ∷ ds) h =
    ap suc (AllRead-length read_at xs opt ds h.3)

jitget-reply_of :
    (l : Layout) (g : ℕ) (sends : List (Option ℕ)) (s : Stream) (read_at : Bytes → ℕ → ℕ → Reading)
    (h : Hist) (unset : TransCmd) (junk : List ℤ) (size : List ℕ) (names more : Bytes)
    (ds : List Bytes)
    → Packs l (
        answers
          (entry_at h h.conshistp).date
          names
          (announced ds ++ drop (length ds) junk)
          (length (joined ds)))
    → (netwrite sends (request_bytes l 3 (request size))).1 ≡ true
    → length size ≤ transopt_size
    → length junk ≡ transopt_size
    → length size ≡ length ds
    → All (λ d. 0 < length d) ds
    → length names ≤ 255
    → chunks s < g
    → pending s ≡ reply_bytes l unset junk (reply_of read_at h names ds) ++ more
    → (jitget l g sends s size).1 ≡ fetched names (places 0 size ds) (announced ds)
unfolding reply_bytes
jitget-reply_of l g sends s read_at h unset junk size names more ds p hs h3 hj hl hd hn hg e =
    let ints = retval_ints-set_sizes read_at junk ds (omega (arith, hl, h3, hj)) in
    let whole : take 255 (take 255 names) ≡ names =
      ap (take 255) (take-all names 255 hn) ∙ take-all names 255 hn in
    subst (λ n. (jitget l g sends s size).1 ≡ fetched n (places 0 size ds) (announced ds)) whole
      (jitget-replyget l g sends s size ds (drop (length ds) junk) (entry_at h h.conshistp).date
        names more p hs h3 hl hd hg
        (e
          ∙ ap (λ v. trans_replyget l (entry_at h h.conshistp).date names (joined ds) v ++ more)
              ints))

-- A well-formed history has a pending entry, with names for all types in the oldest one, shorter
-- than 256 bytes with a separator behind each. A client asks for as many sizes, at most 3, none of
-- them 0, and with a sum that is an int; its request can be sent, the server gets memory, the files
-- can be read, a read gives at most the size asked for, none is empty, the reply can be sent, and
-- the structures can be read from their bytes. Then, in whatever pieces the request and the reply
-- arrive, with more fuel than pieces: the server reads the command GET and the sizes and leaves what
-- follows them, its turn takes exactly the oldest entry off the history, which stays well formed,
-- and jitget gives the names of that entry and puts the data of each file at the sum of the sizes
-- asked for before it, with the sizes of the data.
pub jitget-serve :
    (l : Layout) (f g : ℕ) (sends : List (Option ℕ)) (to_server to_client : Stream)
    (read_at : Bytes → ℕ → ℕ → Reading) (h : Hist) (tfd : Option (Bytes × ℕ)) (x : Bytes)
    (xs : List Bytes) (post : List (Option Bytes)) (size : List ℕ) (names more rest : Bytes)
    (ds : List Bytes) (unset : TransCmd) (junk : List ℤ)
    → IsValid h
    → 0 < pos_part h.numhist
    → (entry_at h h.conshistp).fname ≡ map some (x ∷ xs) ++ post
    → line (x ∷ xs) ≡ names ++ codes ";"
    → AllRead read_at (x ∷ xs) (request size) ds
    → All (λ d. 0 < length d) ds
    → length (line (x ∷ xs)) < 256
    → sum_asked read_at (length (x ∷ xs)) (request size) < 2 ^ 31
    → length size ≡ length (x ∷ xs)
    → length size ≤ transopt_size
    → length junk ≡ transopt_size
    → Packs l (asks 3 (request size))
    → Packs l (
        answers
          (entry_at h h.conshistp).date
          names
          (announced ds ++ drop (length ds) junk)
          (length (joined ds)))
    → (netwrite sends (request_bytes l 3 (request size))).1 ≡ true
    → chunks to_server < f
    → pending to_server ≡ (jitget l g sends to_client size).0 ++ more
    → chunks to_client < g
    → pending to_client ≡ reply_bytes l unset junk (reply_of read_at h names ds) ++ rest
    → Session l f g sends to_server to_client read_at h tfd size names more ds
jitget-serve l f g sends s1 s2 read_at h tfd x xs post size names more rest ds unset junk v hp hf en
      hr hd hx hsum hl h3 hj pq pr hs hc1 e1 hc2 e2 =
    let whole = take-all size transopt_size h3 in
    let bytes =
      jitget-sent l g sends s2 size
      ∙ ap (λ z. (netwrite sends (request_bytes l 3 (request z))).0) whole
      ∙ netwrite-all sends (request_bytes l 3 (request size)) hs in
    let (left, asked, others) =
      getcmd-netsendreq l 3 (request size) (request_bytes l 3 (request size)) more s1 f pq
        (omega arith) hc1 (get_sent l (request size)) (e1 ∙ ap (λ b. b ++ more) bytes) in
    let a = cmd_get-Answered read_at h tfd x xs post (request size) ds v hp hf hr hx hsum in
    let short : length names ≤ 255 = omega (arith, length-snoc names b';', ap length en) in
    let same = snoc_inj a.names names b';' (sym a.names_eq ∙ en) in
    record {
      left = left;
      asked = asked;
      others = others;
      hist = a.hist;
      valid = a.valid;
      taken = a.taken;
      turn =
          subst
            (λ n.
              serve read_at record { memory = true; sends = true }
                record { hist = h; nsize = n; tfd = tfd } 3 (request size)
              ≡ ret (
                  served record { hist = a.hist; nsize = n; tfd = tfd }
                    (some (reply_of read_at h names ds))
                    (unlinks (entry_at h (removed_slot h)).fname) false))
            (sym hl)
            (served-get read_at _ (request size)
              ∙ a.sent
              ∙ ap
                  (λ m. ret (
                    served record { hist = a.hist; nsize = length (x ∷ xs); tfd = tfd }
                      (some (reply_of read_at h m ds)) (unlinks (entry_at h (removed_slot h)).fname)
                      false))
                  same);
      got =
          jitget-reply_of l g sends s2 read_at h unset junk size names rest ds pr hs h3 hj
            (hl ∙ sym (AllRead-length read_at (x ∷ xs) (request size) ds hr)) hd short hc2 e2;
    }
