-- ===== src/Prelude/Perms.antt =====
-- Rearrangements of lists of lists.
use mathlib.Core.List.Permᴰ
use mathlib.Core.List.{Permᴰ, flatten, append_assoc}
use shingan.Prelude.{◌≡◌, sym, subst, List, ◌++◌}

module _ {ℓ} {A : Type ℓ} where
  pub perm_of_eq : {xs ys : List A} → xs ≡ ys → Permᴰ xs ys
  perm_of_eq {xs} e = subst (Permᴰ xs) e (Permᴰ.refl xs)

  -- A middle part may come first.
  pub perm_front : (xs ys zs : List A) → Permᴰ (xs ++ (ys ++ zs)) (ys ++ (xs ++ zs))
  perm_front xs ys zs = Permᴰ.trans (perm_of_eq (sym (append_assoc xs ys zs))) (
      Permᴰ.trans (Permᴰ.append_right zs (Permᴰ.append_comm xs ys))
        (perm_of_eq (append_assoc ys xs zs)))

  pub perm_append :
      {xs xs' ys ys' : List A} → Permᴰ xs xs' → Permᴰ ys ys' → Permᴰ (xs ++ ys) (xs' ++ ys')
  perm_append {xs' = xs'} {ys = ys} p q =
      Permᴰ.trans (Permᴰ.append_right ys p) (Permᴰ.append_left xs' q)

  pub flatten-perm : {xs ys : List (List A)} → Permᴰ xs ys → Permᴰ (flatten xs) (flatten ys)
  unfolding flatten
  flatten-perm Permᴰ.nil = Permᴰ.nil
  flatten-perm (Permᴰ.cons e p) = perm_append (perm_of_eq e) (flatten-perm p)
  flatten-perm (Permᴰ.swap {a} {b} {l = l} e f) =
      Permᴰ.trans (perm_front a b (flatten l))
        (perm_append (perm_of_eq f) (perm_append (perm_of_eq e) (Permᴰ.refl (flatten l))))
  flatten-perm (Permᴰ.trans p q) = Permᴰ.trans (flatten-perm p) (flatten-perm q)
