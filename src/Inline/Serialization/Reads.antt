-- ===== src/Inline/Serialization/Reads.antt =====
-- A serializer and a deserializer of the same value, and how they compose.
use wavm.Prelude.{
  ◌≢◌, ◌⊎◌, ◌<◌, inl, inr, false, ℕ, ◌≡◌, refl, ap, ◌∙◌, true, List, [], ◌∷◌, ◌++◌, length, take,
  drop, leb, if◌then◌else◌, arith, length-append, ◌==◌,
}
use mathlib.Core.List.{append_assoc}
use wavm.Inline.Serialization.{
  Reader, ok, fatal, ◌>>=◌, pure, Written, bytes, ◌<>◌, next_byte, advance, read_constant, throw,
  FatalSerializationException, read_elements, write_elements,
}

-- A stream that ends before all bytes were read is refused for that reason.
abbrev pub RefusesPart : {A : Type 0} → Reader A → List ℕ → Type 0
RefusesPart read out =
    (s more : List ℕ)
    → s ++ more ≡ out
    → more ≢ []
    → read s ≡ fatal FatalSerializationException.expected_data

-- What is written is bytes, `read` takes just these off a stream, and it refuses any shorter part.
pub record Reads {A : Type 0} (written : Written) (read : Reader A) (a : A) : Type 0 where
  pub out : List ℕ
  pub writes : written ≡ bytes out
  pub reads : (rest : List ℕ) → read (out ++ rest) ≡ ok a rest
  pub truncated : RefusesPart read out

-- A part of two pieces ends in the first, or is the first and a part of the second.
cut :
    (s more xs ys : List ℕ)
    → s ++ more ≡ xs ++ ys
    → more ≢ []
    → ((m : List ℕ) × (m ≢ []) × (s ++ m ≡ xs)) ⊎ ((t : List ℕ) × (s ≡ xs ++ t) × (t ++ more ≡ ys))
cut s more [] ys h n = inr (s, refl, h)
cut [] more (x ∷ xs) ys h n = inl (x ∷ xs, (λ e. cc), refl)
cut (b ∷ s) more (x ∷ xs) ys h n =
    let e : b ≡ x = cc in
    let f : s ++ more ≡ xs ++ ys = cc in
    elim (cut s more xs ys f n) [
      | inl (m, k, g) ↦ inl (m, k, (λ i. e i ∷ g i))
      | inr (t, g, k) ↦ inr (t, (λ i. e i ∷ g i), k)
    ]

pub no_part : (s more : List ℕ) → s ++ more ≡ [] → more ≢ [] → ⊥
no_part [] more h n = n h
no_part (b ∷ s) more h n = cc

one_part : (s more : List ℕ) (b : ℕ) → s ++ more ≡ b ∷ [] → more ≢ [] → s ≡ []
one_part [] more b h n = refl
one_part (c ∷ s) more b h n = let e : s ++ more ≡ [] = cc in absurd (no_part s more e n)

take-append : (xs ys : List ℕ) → take (length xs) (xs ++ ys) ≡ xs
take-append [] ys = refl
take-append (x ∷ xs) ys = ap (λ l. x ∷ l) (take-append xs ys)

drop-append : (xs ys : List ℕ) → drop (length xs) (xs ++ ys) ≡ ys
drop-append [] ys = refl
drop-append (x ∷ xs) ys = drop-append xs ys

pub >>=-ok :
    {A B : Type 0} (r : Reader A) (k : A → Reader B) {s rest : List ℕ} {a : A}
    → r s ≡ ok a rest
    → (r >>= k) s ≡ k a rest
>>=-ok r k h = ap (λ x. elim x [ ok b others ↦ k b others | fatal e ↦ fatal e ]) h

>>=-fatal :
    {A B : Type 0} (r : Reader A) (k : A → Reader B) {s : List ℕ} {e : FatalSerializationException}
    → r s ≡ fatal e
    → (r >>= k) s ≡ fatal e
>>=-fatal r k h = ap (λ x. elim x [ ok b others ↦ k b others | fatal e ↦ fatal e ]) h

pub Reads-pure : {A : Type 0} (a : A) → Reads (bytes []) (pure a) a
Reads-pure a = record {
  out = [];
  writes = refl;
  reads = λ rest. refl;
  truncated = λ s more h n. absurd (no_part s more h n);
}

pub Reads-bind :
    {A B : Type 0} {w w' : Written} {r : Reader A} {a : A} {b : B} (k : A → Reader B)
    → Reads w r a
    → Reads w' (k a) b
    → Reads (w <> w') (r >>= k) b
Reads-bind {r} k x y = record {
  out = x.out ++ y.out;
  writes = rw (x.writes, y.writes) refl;
  reads = λ rest.
      rw (append_assoc x.out y.out rest) (>>=-ok r k (x.reads (y.out ++ rest)) ∙ y.reads rest);
  truncated = λ s more h n. elim (cut s more x.out y.out h n) [
    | inl (m, p, e) ↦ >>=-fatal r k (x.truncated s m e p)
    | inr (t, e, g) ↦ ap (r >>= k) e ∙ >>=-ok r k (x.reads t) ∙ y.truncated t more g n
  ];
}

-- The last step of a deserializer that builds a value.
pub Reads-map :
    {A B : Type 0} {w : Written} {r : Reader A} {a : A} (f : A → B)
    → Reads w r a
    → Reads w (r >>= λ x. pure (f x)) (f a)
Reads-map {r} f x = record {
  out = x.out;
  writes = x.writes;
  reads = λ rest. >>=-ok r (λ z. pure (f z)) (x.reads rest);
  truncated = λ s more h n. >>=-fatal r (λ z. pure (f z)) (x.truncated s more h n);
}

-- A test that reads nothing, before and after.
pub Reads-before :
    {A B : Type 0} {w : Written} {r : Reader A} {a : A} {b : B} (k : A → Reader B)
    → ((s : List ℕ) → r s ≡ ok a s)
    → Reads w (k a) b
    → Reads w (r >>= k) b
Reads-before {r} k h x = record {
  out = x.out;
  writes = x.writes;
  reads = λ rest. >>=-ok r k (h (x.out ++ rest)) ∙ x.reads rest;
  truncated = λ s more e n. >>=-ok r k (h s) ∙ x.truncated s more e n;
}

pub Reads-after :
    {A B : Type 0} {w : Written} {r : Reader A} {a : A} {b : B} (k : A → Reader B)
    → Reads w r a
    → ((s : List ℕ) → k a s ≡ ok b s)
    → Reads w (r >>= k) b
Reads-after {r} k x h = record {
  out = x.out;
  writes = x.writes;
  reads = λ rest. (>>=-ok r k (x.reads rest) ∙ h rest);
  truncated = λ s more e n. >>=-fatal r k (x.truncated s more e n);
}

pub Reads-next_byte : (b : ℕ) → Reads (bytes (b ∷ [])) next_byte b
unfolding next_byte
Reads-next_byte b = record {
  out = b ∷ [];
  writes = refl;
  reads = λ rest. refl;
  truncated = λ s more h n. ap next_byte (one_part s more b h n);
}

advance_lem :
    (n : ℕ) (s : List ℕ) → leb n (length s) ≡ true → advance n s ≡ ok (take n s) (drop n s)
unfolding advance
advance_lem n s h = rw h refl

advance_short :
    (n : ℕ) (s : List ℕ)
    → leb n (length s) ≡ false
    → advance n s ≡ fatal FatalSerializationException.expected_data
unfolding advance
advance_short n s h = rw h refl

pub Reads-advance : (xs : List ℕ) → Reads (bytes xs) (advance (length xs)) xs
Reads-advance xs = record { out = xs; writes = refl; reads = whole; truncated = short }
  where
    some_more : (more : List ℕ) → more ≢ [] → 0 < length more
    some_more [] n = absurd (n refl)
    some_more (b ∷ more) n = omega arith

    less : (s more : List ℕ) → s ++ more ≡ xs → more ≢ [] → leb (length xs) (length s) ≡ false
    less s more h n =
        let e : length (s ++ more) ≡ length xs = ap length h in
        ground (arith, e, length-append s more, some_more more n)

    short : RefusesPart (advance (length xs)) xs
    short s more h n = advance_short (length xs) s (less s more h n)

    enough : (rest : List ℕ) → leb (length xs) (length (xs ++ rest)) ≡ true
    enough rest = ground (arith, length-append xs rest)

    whole : (rest : List ℕ) → advance (length xs) (xs ++ rest) ≡ ok xs rest
    whole rest =
        advance_lem (length xs) (xs ++ rest) (enough rest)
        ∙ rw (take-append xs rest, drop-append xs rest) refl

pub Reads-constant : (constant : ℕ) → Reads (bytes (constant ∷ [])) (read_constant constant) tt
Reads-constant constant =
    unfold read_constant in
    Reads-after _ (Reads-next_byte constant) (λ s.
      ap (λ b. (if b then pure tt else throw FatalSerializationException.constant_mismatch) s)
        (same constant))
  where
    same : (n : ℕ) → (n == n) ≡ true
    same n = ground arith

-- Every element of a list.
abbrev pub Every : {A : Type 0} → (A → Type 0) → List A → Type 0
Every P [] = Unit
Every P (a ∷ xs) = P a × Every P xs

pub Reads-elements :
    {A : Type 0} {write : A → Written} {read : Reader A} {P : A → Type 0}
    → ((a : A) → P a → Reads (write a) read a)
    → (xs : List A) → Every P xs
    → Reads (write_elements write xs) (read_elements read (length xs)) xs
unfolding write_elements read_elements
Reads-elements each [] h = Reads-pure []
Reads-elements each (a ∷ xs) h =
    Reads-bind _ (each a h.0) (Reads-map (λ rest. a ∷ rest) (Reads-elements each xs h.1))
