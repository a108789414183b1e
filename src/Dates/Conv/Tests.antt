-- ===== src/Dates/Conv/Tests.antt =====
-- dateconv of src/misclib.c on texts of ctime_r.
use jit_dt.Common.{◌≡◌, refl, ◌∷◌, ◌++◌, codes, arith, str_eq}
use jit_dt.Common.Outcome.{ret, load}
use jit_dt.LockFile.{c_str, cut_line}
use jit_dt.Dates.{decimal, digits, skip_blanks}
use jit_dt.Dates.Conv.{find_month, conv_month, split_blank, words, conv_fields, dateconv}
use jit_dt.Dates.Conv.Words.{dateconv-spaced}

december :
    dateconv (codes "Thu Dec  8 12:35:31 2016\n") 250000 ≡ ret (codes "2016:12:8:12:35:31:250")
unfolding dateconv words split_blank skip_blanks c_str cut_line conv_fields conv_month find_month
    str_eq load digits
december = refl

dateconv-spaced_example :
    dateconv (codes "Thu Dec  8 12:35:31 2016\n") 250000
    ≡ ret (
        codes "2016"
        ++ (b':' ∷ decimal 12)
        ++ (b':' ∷ codes "8")
        ++ (b':' ∷ codes "12:35:31")
        ++ (b':' ∷ decimal 250))
dateconv-spaced_example =
    dateconv-spaced 0 0 1 0 11 250000 (codes "Thu") (codes "8") (codes "12:35:31") (codes "2016")
      (omega arith) (omega arith) (omega arith) (omega arith) (omega arith)
