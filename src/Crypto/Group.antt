-- ===== src/Crypto/Group.antt =====
-- The documented laws of the group of curve25519_dalek: scalars are a field, points a module over
-- it, and encodings are canonical. Also what sums and differences come to.
use cipher_x.Prelude.{ℕ, ◌+◌, ◌*◌, ◌<◌, ◌≡◌, ◌≢◌, sym, ap, ◌∙◌, some, length, u64_mod}
use cipher_x.Crates.{Crates}

pub record GroupLaws (c : Crates) : Type 0 where
  pub scalar-add_comm : (a b : c.Scalar) → c.scalar_add a b ≡ c.scalar_add b a
  pub scalar-add_assoc :
      (a b d : c.Scalar) → c.scalar_add (c.scalar_add a b) d ≡ c.scalar_add a (c.scalar_add b d)
  pub scalar-zero_add : (a : c.Scalar) → c.scalar_add c.scalar_zero a ≡ a
  pub scalar-sub_add : (a b : c.Scalar) → c.scalar_add (c.scalar_sub a b) b ≡ a
  pub scalar-mul_comm : (a b : c.Scalar) → c.scalar_mul a b ≡ c.scalar_mul b a
  pub scalar-mul_assoc :
      (a b d : c.Scalar) → c.scalar_mul (c.scalar_mul a b) d ≡ c.scalar_mul a (c.scalar_mul b d)
  pub scalar-one_mul : (a : c.Scalar) → c.scalar_mul c.scalar_one a ≡ a
  pub scalar-mul_add :
      (a b d : c.Scalar)
      → c.scalar_mul a (c.scalar_add b d) ≡ c.scalar_add (c.scalar_mul a b) (c.scalar_mul a d)
  pub scalar-mul_invert :
      (a : c.Scalar) → a ≢ c.scalar_zero → c.scalar_mul a (c.scalar_invert a) ≡ c.scalar_one
  pub scalar-mul_ne_zero :
      (a b : c.Scalar) → a ≢ c.scalar_zero → b ≢ c.scalar_zero → c.scalar_mul a b ≢ c.scalar_zero
  pub scalar-one_ne_zero : c.scalar_one ≢ c.scalar_zero
  pub scalar-two_ne_zero : c.scalar_from_u64 2 ≢ c.scalar_zero
  pub from_u64-zero : c.scalar_from_u64 0 ≡ c.scalar_zero
  pub from_u64-one : c.scalar_from_u64 1 ≡ c.scalar_one
  pub from_u64-add :
      (m n : ℕ)
      → m + n < u64_mod
      → c.scalar_from_u64 (m + n) ≡ c.scalar_add (c.scalar_from_u64 m) (c.scalar_from_u64 n)
  pub from_u64-mul :
      (m n : ℕ)
      → m * n < u64_mod
      → c.scalar_from_u64 (m * n) ≡ c.scalar_mul (c.scalar_from_u64 m) (c.scalar_from_u64 n)
  pub point-add_comm : (p q : c.Point) → c.point_add p q ≡ c.point_add q p
  pub point-add_assoc :
      (p q r : c.Point) → c.point_add (c.point_add p q) r ≡ c.point_add p (c.point_add q r)
  pub point-zero_add : (p : c.Point) → c.point_add c.identity p ≡ p
  pub point-add_sub : (p q : c.Point) → c.point_sub (c.point_add p q) q ≡ p
  pub mul-add_scalar :
      (a b : c.Scalar) (p : c.Point)
      → c.point_mul (c.scalar_add a b) p ≡ c.point_add (c.point_mul a p) (c.point_mul b p)
  pub mul-add_point :
      (a : c.Scalar) (p q : c.Point)
      → c.point_mul a (c.point_add p q) ≡ c.point_add (c.point_mul a p) (c.point_mul a q)
  pub mul-mul :
      (a b : c.Scalar) (p : c.Point)
      → c.point_mul (c.scalar_mul a b) p ≡ c.point_mul a (c.point_mul b p)
  pub mul-zero : (p : c.Point) → c.point_mul c.scalar_zero p ≡ c.identity
  pub mul-one : (p : c.Point) → c.point_mul c.scalar_one p ≡ p
  pub decompress-compress : (p : c.Point) → c.decompress (c.compress p) ≡ some p
  pub length-compress : (p : c.Point) → length (c.compress p) ≡ 32
  pub from_canonical-to_bytes :
      (a : c.Scalar) → c.scalar_from_canonical (c.scalar_to_bytes a) ≡ some a
  pub length-to_bytes : (a : c.Scalar) → length (c.scalar_to_bytes a) ≡ 32

module _ {c : Crates} (laws : GroupLaws c) where
  open c use {Scalar, scalar_add, scalar_sub, scalar_mul, Point, point_add, point_sub, point_mul}
  open laws use {
    scalar-add_comm, scalar-add_assoc, scalar-sub_add, scalar-mul_comm, point-add_comm,
    point-add_assoc, point-add_sub, mul-add_scalar, mul-mul,
  }

  -- (a − b·x)·P + b·(x·P) = a·P
  pub close_difference :
      (a b x : Scalar) (p : Point)
      → point_add (point_mul (scalar_sub a (scalar_mul b x)) p) (point_mul b (point_mul x p))
        ≡ point_mul a p
  close_difference a b x p =
      ap (point_add (point_mul (scalar_sub a (scalar_mul b x)) p)) (sym (mul-mul b x p))
      ∙ sym (mul-add_scalar (scalar_sub a (scalar_mul b x)) (scalar_mul b x) p)
      ∙ ap (λ s. point_mul s p) (scalar-sub_add a (scalar_mul b x))

  -- (k + e·r)·P − e·(r·P) = k·P
  pub open_sum :
      (k e r : Scalar) (p : Point)
      → point_sub (point_mul (scalar_add k (scalar_mul e r)) p) (point_mul e (point_mul r p))
        ≡ point_mul k p
  open_sum k e r p =
      ap (λ q. point_sub q (point_mul e (point_mul r p))) (mul-add_scalar k (scalar_mul e r) p)
      ∙ ap (λ q. point_sub (point_add (point_mul k p) q) (point_mul e (point_mul r p)))
          (mul-mul e r p)
      ∙ point-add_sub (point_mul k p) (point_mul e (point_mul r p))

  -- a·(r·P) = r·(a·P)
  pub mul_swap :
      (a r : Scalar) (p : Point) → point_mul a (point_mul r p) ≡ point_mul r (point_mul a p)
  mul_swap a r p =
      sym (mul-mul a r p) ∙ ap (λ s. point_mul s p) (scalar-mul_comm a r) ∙ mul-mul r a p

  -- a + (b − a) = b
  pub scalar-add_sub : (a b : Scalar) → scalar_add a (scalar_sub b a) ≡ b
  scalar-add_sub a b = scalar-add_comm a (scalar_sub b a) ∙ scalar-sub_add b a

  -- (p + q) − p = q
  pub point-add_sub_left : (p q : Point) → point_sub (point_add p q) p ≡ q
  point-add_sub_left p q = ap (λ x. point_sub x p) (point-add_comm p q) ∙ point-add_sub q p

  -- (p + q) + (r + s) = (p + r) + (q + s)
  pub point-add_add :
      (p q r s : Point)
      → point_add (point_add p q) (point_add r s) ≡ point_add (point_add p r) (point_add q s)
  point-add_add p q r s =
      point-add_assoc p q (point_add r s)
      ∙ ap (point_add p) (
          sym (point-add_assoc q r s)
          ∙ ap (λ x. point_add x s) (point-add_comm q r)
          ∙ point-add_assoc r q s)
      ∙ sym (point-add_assoc p r (point_add q s))

  -- (a + b) + (d + e) = (a + d) + (b + e)
  pub scalar-add_add :
      (a b d e : Scalar)
      → scalar_add (scalar_add a b) (scalar_add d e) ≡ scalar_add (scalar_add a d) (scalar_add b e)
  scalar-add_add a b d e =
      scalar-add_assoc a b (scalar_add d e)
      ∙ ap (scalar_add a) (
          sym (scalar-add_assoc b d e)
          ∙ ap (λ x. scalar_add x e) (scalar-add_comm b d)
          ∙ scalar-add_assoc d b e)
      ∙ sym (scalar-add_assoc a d (scalar_add b e))
