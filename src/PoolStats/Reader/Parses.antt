-- ===== src/PoolStats/Reader/Parses.antt =====
-- What a read takes off the front of the bytes that are left, and how such facts compose.
use mathlib.Core.List.{append_assoc, append-nil}
use hns_dane_browser_extensi.Prelude.{
  ℕ, ◌+◌, ◌-◌, ◌^◌, ◌≤◌, ◌<◌, ◌≡◌, refl, sym, ap, ◌∙◌, subst, Bool, false, List, [], ◌∷◌, ◌++◌,
  length, length-append, length-drop, take, drop, take-append, drop-append, drop-add, arith,
  u64_limit,
}
use hns_dane_browser_extensi.Prelude.Result.{ok}
use hns_dane_browser_extensi.Prelude.Exec.{pure, reject, ◌>>=◌, bind-run_ok}
use hns_dane_browser_extensi.PoolStats.Error.{HrmPoolStatsError}
use hns_dane_browser_extensi.PoolStats.Bytes.{
  to_le_bytes, from_le_bytes, length-to_le_bytes, from_le_bytes-to_le_bytes,
}
use hns_dane_browser_extensi.PoolStats.Reader.{
  Reader, Read, read_bytes, read_array, read_u8, read_u32, read_u64, finish,
}

abbrev pub skip : Reader → ℕ → Reader
skip r n = record r { offset = r.offset + n }

-- The reader stands in front of `left`, in an input that memory can hold.
pub record Faces (r : Reader) (left : List ℕ) : Type 0 where
  pub left_eq : drop r.offset r.input ≡ left
  pub inside : r.offset ≤ length r.input
  pub fits : length r.input < u64_limit

-- In front of `x`, whatever follows it, `m` returns `v` and stands behind `x`.
pub record Parses {A : Type 0} (m : Read A) (x : List ℕ) (v : A) : Type 0 where
  pub run : (r : Reader) (rest : List ℕ) → Faces r (x ++ rest) → m r ≡ (ok v, skip r (length x))

length-left :
    (r : Reader) (x rest : List ℕ)
    → Faces r (x ++ rest)
    → length r.input ≡ r.offset + (length x + length rest)
length-left r x rest f =
    omega (arith, length-drop r.offset r.input, ap length f.left_eq, length-append x rest, f.inside)

Faces-skip : (r : Reader) (x rest : List ℕ) → Faces r (x ++ rest) → Faces (skip r (length x)) rest
Faces-skip r x rest f = record {
  left_eq =
      drop-add r.offset (length x) r.input
      ∙ ap (λ l. drop (length x) l) f.left_eq
      ∙ drop-append x rest;
  inside = omega (arith, length-left r x rest f);
  fits = f.fits;
}

skip-skip : (r : Reader) (n m : ℕ) → skip (skip r n) m ≡ skip r (n + m)
skip-skip r n m = ground arith

module _ {A : Type 0} where
  pub Parses-pure : (v : A) → Parses (pure v) [] v
  unfolding pure
  Parses-pure v = record { run = λ r rest f. ground arith }

module _ {A B : Type 0} where
  pub Parses-bind :
      (m : Read A) (k : A → Read B) (x y : List ℕ) (v : A) (w : B)
      → Parses m x v
      → Parses (k v) y w
      → Parses (m >>= k) (x ++ y) w
  Parses-bind m k x y v w pm pk = record {
    run = λ r rest f.
        let f' : Faces r (x ++ (y ++ rest)) = subst (Faces r) (append_assoc x y rest) f in
        bind-run_ok m k r (pm.run r (y ++ rest) f')
        ∙ pk.run (skip r (length x)) rest (Faces-skip r x (y ++ rest) f')
        ∙ ap (λ u. (ok w, u))
            (skip-skip r (length x) (length y) ∙ ap (λ n. skip r n) (sym (length-append x y)));
  }

module _ {B : Type 0} where
  pub Parses-reject :
      (bad : Bool) (e : HrmPoolStatsError) (k : Unit {0} → Read B) (y : List ℕ) (w : B)
      → bad ≡ false
      → Parses (k tt) y w
      → Parses (reject bad e >>= k) y w
  Parses-reject bad e k y w good pk = record {
    run = λ r rest f.
        bind-run_ok (reject bad e) k r {a = tt} {t = r} (unfold reject in rw good)
        ∙ pk.run r rest f;
  }

read_bytes-Parses : (x : List ℕ) (n : ℕ) → length x ≡ n → Parses (read_bytes n) x x
unfolding read_bytes
read_bytes-Parses x n e = record {
  run = λ r rest f.
      let size = length-left r x rest f in
      let taken : take (r.offset + n - r.offset) (drop r.offset r.input) ≡ x =
        let same : r.offset + n - r.offset ≡ length x = omega arith in
        rw (f.left_eq, same) (take-append x rest) in
      ground (arith, taken, size, e, f.fits);
}

pub read_array-Parses : (x : List ℕ) (n : ℕ) → length x ≡ n → Parses (read_array n) x x
unfolding read_array
read_array-Parses x n e =
    subst (λ l. Parses (read_array n) l x) (append-nil x)
      (Parses-bind _ _ x [] x x (read_bytes-Parses x n e)
        (Parses-reject _ _ _ [] x (ground arith) (Parses-pure x)))

module _ (n : ℕ) (x : ℕ) (small : x < 256 ^ n) where
  number-Parses : Parses (read_array n >>= λ v. pure (from_le_bytes v)) (to_le_bytes n x) x
  number-Parses =
      subst (λ l. Parses (read_array n >>= λ v. pure (from_le_bytes v)) l x) (append-nil _)
        (Parses-bind _ _ (to_le_bytes n x) [] _ x
          (read_array-Parses (to_le_bytes n x) n (length-to_le_bytes n x))
          (subst (Parses (pure (from_le_bytes (to_le_bytes n x))) [])
            (from_le_bytes-to_le_bytes n x small) (Parses-pure _)))

pub read_u32-Parses : (x : ℕ) → x < 2 ^ 32 → Parses read_u32 (to_le_bytes 4 x) x
unfolding read_u32
read_u32-Parses x h = number-Parses 4 x h

pub read_u64-Parses : (x : ℕ) → x < 2 ^ 64 → Parses read_u64 (to_le_bytes 8 x) x
unfolding read_u64
read_u64-Parses x h = number-Parses 8 x h

pub read_u8-Parses : (x : ℕ) → Parses read_u8 (x ∷ []) x
unfolding read_u8
read_u8-Parses x =
    Parses-bind _ _ (x ∷ []) [] _ x (read_array-Parses (x ∷ []) 1 refl) (Parses-pure x)

pub Parses-map :
    {A B : Type 0} (m : Read A) (g : A → B) (x : List ℕ) (v : A)
    → Parses m x v
    → Parses (m >>= λ a. pure (g a)) x (g v)
Parses-map m g x v p =
    subst (λ l. Parses (m >>= λ a. pure (g a)) l (g v)) (append-nil x)
      (Parses-bind m _ x [] v (g v) p (Parses-pure (g v)))

-- `m` reads the whole input that is left and ends in `v`.
pub record Reads {A : Type 0} (m : Read A) (x : List ℕ) (v : A) : Type 0 where
  pub run : (r : Reader) → Faces r x → (m r).0 ≡ ok v

module _ {A B : Type 0} where
  pub Reads-bind :
      (m : Read A) (k : A → Read B) (x y : List ℕ) (v : A) (w : B)
      → Parses m x v
      → Reads (k v) y w
      → Reads (m >>= k) (x ++ y) w
  Reads-bind m k x y v w pm rk = record {
    run = λ r f.
        ap (λ u. u.0) (bind-run_ok m k r (pm.run r y f))
        ∙ rk.run (skip r (length x)) (Faces-skip r x y f);
  }

module _ {B : Type 0} where
  pub Reads-reject :
      (bad : Bool) (e : HrmPoolStatsError) (k : Unit {0} → Read B) (y : List ℕ) (w : B)
      → bad ≡ false
      → Reads (k tt) y w
      → Reads (reject bad e >>= k) y w
  Reads-reject bad e k y w good rk = record {
    run = λ r f.
        ap (λ u. u.0) (bind-run_ok (reject bad e) k r {a = tt} {t = r} (unfold reject in rw good))
        ∙ rk.run r f;
  }

  pub Reads-finish : (w : B) → Reads (finish >>= λ done. pure w) [] w
  unfolding finish pure ◌>>=◌
  Reads-finish w = record {
    run = λ r f.
        let at_end : r.offset ≡ length r.input =
          omega (arith, length-drop r.offset r.input, ap length f.left_eq, f.inside) in
        ground (arith, at_end);
  }
