-- ===== src/Http/Browse.antt =====
-- GET: which file answers a URL, and the descriptors that are left open.
use jit_dt.Common.{◌≡◌, ◌↔◌, ◌⊎◌, inl, inr, refl, sym, ap, ◌∙◌, ◌++◌, Bytes, codes, arith}
use jit_dt.Http.{
  Found, unopened, unstatable, directory, regular, special, file, browse_again, browsefile,
}

-- `p` is the regular file that answers the URL.
pub data Serves (site : Bytes → Found) (url p : Bytes) : Type 0 where
  plain : p ≡ codes "./" ++ url → site p ≡ regular → Serves site url p
  index :
      site (codes "./" ++ url) ≡ directory
      → p ≡ (codes "./" ++ url) ++ codes "./index.html"
      → site p ≡ regular
      → Serves site url p

found_cases :
    (f : Found)
    → (f ≡ unopened) ⊎ ((f ≡ unstatable) ⊎ ((f ≡ directory) ⊎ ((f ≡ regular) ⊎ (f ≡ special))))
found_cases unopened = inl refl
found_cases unstatable = inr (inl refl)
found_cases directory = inr (inr (inl refl))
found_cases regular = inr (inr (inr (inl refl)))
found_cases special = inr (inr (inr (inr refl)))

forth :
    (site : Bytes → Found) (url p : Bytes) → (browsefile site url).0 ≡ file p → Serves site url p
unfolding browsefile browse_again
forth site url p e = grind (
  arith,
  plain,
  index,
  found_cases (site (codes "./" ++ url)),
  found_cases (site ((codes "./" ++ url) ++ codes "./index.html")),
)

back : (site : Bytes → Found) (url p : Bytes) → Serves site url p → (browsefile site url).0 ≡ file p
unfolding browsefile browse_again
back site url p (plain e r) = let r' = ap site (sym e) ∙ r in rw (browsefile, r') (ap file (sym e))
back site url p (index d e r) =
    let r' = ap site (sym e) ∙ r in rw (browsefile, d, browse_again, r') (ap file (sym e))

-- A GET request is answered by a file exactly where it is the regular file at the URL behind `./`,
-- or that path is a directory and the regular file is that path with `./index.html` put behind it,
-- with no `/` between them.
pub browsefile-Serves :
    (site : Bytes → Found) (url p : Bytes) → ((browsefile site url).0 ≡ file p) ↔ Serves site url p
unfolding browsefile browse_again
browsefile-Serves site url p = (forth site url p, back site url p)
