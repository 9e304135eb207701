-- ===== src/Memorial/Written.antt =====
-- The loop of `Ledger.append` in remembrance/erasure.py, which writes bytes, against `erase`, whose
-- model adds a line to a text.
use mathlib.Core.List.{append_assoc, append-nil}
use the_st.Prelude.{
  ℕ, zero, suc, ◌≤◌, ◌<◌, ◌≡◌, refl, sym, ap, ◌∙◌, false, List, [], ◌∷◌, ◌++◌, none, some, arith,
  Text, take, drop, length, take-append-drop,
}
use the_st.Utf8.{encode, encode-append}
use the_st.Fallible.{ok, fail}
use the_st.Memorial.{Try}
use the_st.Memorial.Ledger.{Entry, next_entry, line_of, write_all}
use the_st.Memorial.Erasures.{World, apply}
use the_st.Memorial.Erase.{Machine, commit, contents, erase_entry}

length-drop_le : (k : ℕ) (t : List ℕ) → length (drop k t) ≤ length t
length-drop_le zero t = omega arith
length-drop_le (suc k) [] = omega arith
length-drop_le (suc k) (d ∷ t) = let le = length-drop_le k t in omega arith

length-drop_lt : (n b : ℕ) (bs : List ℕ) → 1 ≤ n → length (drop n (b ∷ bs)) ≤ length bs
length-drop_lt zero b bs h = absurd (omega arith)
length-drop_lt (suc n) b bs h = length-drop_le n bs

write_all-ends :
    (taken : ℕ → List ℕ → ℕ) (fuel k : ℕ) (remaining file : List ℕ)
    → ((i : ℕ) (bs : List ℕ) → 1 ≤ taken i bs)
    → length remaining < fuel
    → write_all taken fuel k remaining file ≡ some (file ++ remaining)
unfolding write_all
write_all-ends taken zero k remaining file some_ enough = absurd (omega arith)
write_all-ends taken (suc fuel) k [] file some_ enough = ap some (sym (append-nil file))
write_all-ends taken (suc fuel) k (b ∷ bs) file some_ enough =
    let n = taken k (b ∷ bs) in
    let le = length-drop_lt n b bs (some_ k (b ∷ bs)) in
    let rest =
      write_all-ends taken fuel (suc k) (drop n (b ∷ bs)) (file ++ take n (b ∷ bs)) some_
        (omega arith) in
    rest
    ∙ ap some (
        append_assoc file (take n (b ∷ bs)) (drop n (b ∷ bs))
        ∙ ap (◌++◌ file) (take-append-drop n (b ∷ bs)))

pub commit-ledger : (r : Try World) (m : Machine) → (commit r m).0.ledger ≡ m.ledger
commit-ledger (ok w) m = refl
commit-ledger (fail e) m = refl

-- The loop of `Ledger.append` on the UTF-8 of a new entry's line, from a file that is the UTF-8 of the
-- ledger's text: however much each `os.write` takes, if it takes something, the loop ends after no
-- more rounds than there are bytes, and the file is then the UTF-8 of the text that `erase_entry`
-- leaves for the ledger, whether or not the erasure then fails.
pub write_all-refines :
    (sha256 : Text → Text) (taken : ℕ → List ℕ → ℕ) (fuel : ℕ) (clock : ℕ → Text)
    (mid actor evidence : Text) (entries : List Entry) (m : Machine) (file line : List ℕ)
    → ((i : ℕ) (bs : List ℕ) → 1 ≤ taken i bs)
    → encode (contents m.ledger) ≡ some file
    → encode (line_of (next_entry sha256 (clock 0) mid actor evidence entries)) ≡ some line
    → length line < fuel
    → (text : Text) × ((erase_entry sha256 clock mid actor evidence entries none m).0.ledger
        ≡ some text)
      × (write_all taken fuel 0 line file ≡ encode text)
unfolding erase_entry
write_all-refines sha256 taken fuel clock mid actor evidence entries m file line some_ before new
      enough =
    let e = next_entry sha256 (clock 0) mid actor evidence entries in
    let text = contents m.ledger ++ line_of e in
    (
      text,
      commit-ledger (apply sha256 (clock 1) (clock 2) e false m.world)
          (record m { ledger = some text }),
      write_all-ends taken fuel 0 line file some_ enough
          ∙ sym (encode-append (contents m.ledger) (line_of e) file line before new),
    )
