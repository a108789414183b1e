-- ===== src/Http/Tests.antt =====
-- The HTTP daemon on concrete inputs, and the theorems at inputs that meet their hypotheses.
use jit_dt.Common.{
  ◌≡◌, ◌↔◌, refl, ap, not, str_eq_iff, Bool, true, false, List, [], ◌∷◌, Option, none, some, Bytes,
  codes, length, str_eq, arith, if◌then◌else◌, ltb,
}
use jit_dt.Http.{
  Event, opened, wrote, closed, Part, Env, Context, Run, ret, endless, write_loop, close_file,
  open_part, reopen, part_file, write_part, post_progress, post_parts, finish_upload, uploadfile,
  post_request, Found, unopened, directory, regular, file, browsefile,
}
use jit_dt.Http.Pieces.{stairs, all_parts}
use jit_dt.Http.Request.{Uploads, post_request-Uploads, post_progress-endless}
use jit_dt.Http.Closed.{Closes, post_request-Closes}
use jit_dt.Http.Browse.{Serves, browsefile-Serves}

-- Each buffer is one part of the file `f`.
abbrev one_file : Env
one_file = record {
  fopen = λ l n. true;
  fclose = λ l. true;
  fwrite = λ l. true;
  process = λ b. elim b [
    | [] ↦ []
    | c ∷ r ↦ record { filename = codes "f"; has_type = true; chunk = c ∷ r; off = 0 } ∷ []
  ];
  differs = λ l a b. not (str_eq a b);
  malloc = true;
  create_post_processor = true;
  queue_response = true;
}

-- Each buffer is a part of a file of its own.
abbrev files : Env
files = record one_file {
  process = λ b. elim b [
    | [] ↦ []
    | c ∷ r ↦ record { filename = c ∷ []; has_type = true; chunk = r; off = 0 } ∷ []
  ];
}

-- The second file cannot be opened: the first one is closed at once, and again at the end.
abbrev no_second : Env
no_second = record files { fopen = λ l n. ltb (length l) 1 }

abbrev log_of : Run (Bool × Option Context) → List Event
log_of (ret (b, some s)) = s.log
log_of x = []

closed_twice :
    log_of (post_request 9 no_second (codes "ab" ∷ codes "cd" ∷ []) [])
    ≡ closed 0 ∷ closed 0 ∷ wrote 0 (codes "b") ∷ opened 0 (codes "a") ∷ []
unfolding uploadfile post_parts post_progress part_file close_file reopen open_part write_part
    write_loop finish_upload str_eq
closed_twice = refl

abbrev abc_de : List Bytes
abc_de = codes "abc" ∷ codes "de" ∷ []

shrunk : stairs (all_parts one_file abc_de) ≡ codes "abcabaded"
shrunk = refl

post_request-Uploads_example :
    Uploads one_file 0 (all_parts one_file abc_de) (post_request 3 one_file abc_de [])
post_request-Uploads_example =
    post_request-Uploads 3 one_file (codes "f") abc_de []
      record {
        works = record { fopen = λ l n. refl; fwrite = λ l. refl };
        differs = λ l n. ap not ((str_eq_iff n n).1 refl);
      }
      refl refl refl (omega arith) ((refl, refl), ((refl, refl), tt)) (omega arith)

post_request-Closes_example : Closes files (post_request 3 files abc_de [])
post_request-Closes_example =
    post_request-Closes 3 files abc_de []
      record { works = record { fopen = λ l n. refl; fwrite = λ l. refl }; fclose = λ l. refl } refl
      refl (omega arith) (omega arith) (λ fp. refl)

abbrev full_disk : Env
full_disk = record one_file { fwrite = λ l. false }

abbrev part : Part
part = record { filename = codes "f"; has_type = true; chunk = codes "abc"; off = 0 }

post_progress-endless_example :
    post_progress 100 full_disk part record { fp = none; fname = none; log = [] } ≡ endless
post_progress-endless_example =
    post_progress-endless 100 full_disk part [] (λ l n. refl) (λ l. refl) refl (omega arith)

-- a directory with its index
abbrev site : Bytes → Found
site p =
    if str_eq p (codes "./d/")
    then directory
    else (if str_eq p (codes "./d/./index.html") then regular else unopened)

browsefile-Serves_example :
    ((browsefile site (codes "d/")).0 ≡ file (codes "./d/./index.html"))
    ↔ Serves site (codes "d/") (codes "./d/./index.html")
browsefile-Serves_example = browsefile-Serves site (codes "d/") (codes "./d/./index.html")
