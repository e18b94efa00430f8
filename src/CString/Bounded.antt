-- ===== src/CString/Bounded.antt =====
-- `strncpy`: as many bytes as were asked for, with zeros for what is not there.
use asterisk.Base.{
  ℕ, zero, suc, ◌≤◌, ◌≡◌, refl, arith, true, false, List, [], ◌∷◌, ◌++◌, some, length, drop,
}
use asterisk.CString.{strncpy_loop, strncpy}
use asterisk.CString.Compare.{NoZero}

unfoldable pub padded : ℕ → List ℕ → List ℕ
padded zero s = []
padded (suc n) [] = 0 ∷ padded n []
padded (suc n) (c ∷ s) = c ∷ padded n s

ended-padded :
    (n : ℕ) (dest src : List ℕ)
    → n ≤ length dest
    → strncpy_loop true n dest src ≡ some (padded n [] ++ drop n dest)
unfolding strncpy_loop padded
ended-padded zero dest src h = refl
ended-padded (suc n) [] src h = absurd (omega arith)
ended-padded (suc n) (d ∷ dest) src h = rw (ended-padded n dest src (omega arith)) refl

loop-padded :
    (n : ℕ) (s rest dest : List ℕ)
    → NoZero s
    → n ≤ length dest
    → strncpy_loop false n dest (s ++ (0 ∷ rest)) ≡ some (padded n s ++ drop n dest)
unfolding strncpy_loop padded
loop-padded zero s rest dest nz h = refl
loop-padded (suc n) s rest [] nz h = absurd (omega arith)
loop-padded (suc n) [] rest (d ∷ dest) nz h = rw (ended-padded n dest rest (omega arith)) refl
loop-padded (suc n) (c ∷ s) rest (d ∷ dest) nz h =
    rw (nz.0, strncpy_loop) (rw (loop-padded n s rest dest nz.1 (omega arith)) refl)

-- `strncpy` of a terminated string to where `num` bytes fit writes `num` bytes, the first bytes of
-- the string and then zeros, and leaves the bytes behind them.
pub strncpy-padded :
    (num : ℕ) (s rest dest : List ℕ)
    → NoZero s
    → num ≤ length dest
    → strncpy dest (s ++ (0 ∷ rest)) num ≡ some (padded num s ++ drop num dest)
unfolding strncpy
strncpy-padded num s rest dest nz h = loop-padded num s rest dest nz h
