-- ===== src/Examples/Clash.antt =====
-- A search for collisions among inputs.
use proof.Prelude.{List, [], ◌∷◌, Bool, true, not, ◌||◌, all, ◌≡◌, inl, inr, In, arith}
use proof.Prelude.Bytes.{Bytes, bytes_eq, bytes_eq_sound, bytes_eq_refl}
use proof.Hash.{Sha512, NoClash}

module _ (H : Sha512) where
  abbrev pub apart : Bytes → Bytes → Bool
  apart x y = not (bytes_eq (H.sum x) (H.sum y)) || bytes_eq x y

  abbrev pub no_clash : List Bytes → List Bytes → Bool
  no_clash xs ys = all (λ x. all (λ y. apart x y) ys) xs

  all-In : (p : Bytes → Bool) (xs : List Bytes) (x : Bytes) → all p xs ≡ true → In x xs → p x ≡ true
  all-In p [] x h i = absurd i
  all-In p (y ∷ ys) x h (inl e) = rw e (ground arith)
  all-In p (y ∷ ys) x h (inr i) = all-In p ys x (ground arith) i

  pub NoClash-no_clash : (xs ys : List Bytes) → no_clash xs ys ≡ true → NoClash H xs ys
  NoClash-no_clash xs ys h x y ix iy same =
      let found =
        all-In (λ y. apart x y) ys y (all-In (λ x. all (λ y. apart x y) ys) xs x h ix) iy in
      let equal : bytes_eq (H.sum x) (H.sum y) ≡ true = rw same (bytes_eq_refl (H.sum y)) in
      bytes_eq_sound x y (ground arith)
