-- ===== src/Nodeops/Urls.antt =====
-- src/nodeops.rs: `parse_bind` reads back the host and the port that a URL is made of.
use llmtune.Prelude.{
  ℕ, zero, suc, ◌+◌, ◌*◌, ◌-◌, ◌/◌, ◌%◌, ◌≤◌, ◌<◌, leb, ltb, ◌==◌, ◌≡◌, ◌∙◌, refl, ap, Bool, true,
  false, Option, none, some, [], ◌∷◌, ◌++◌, Text, codes, is_empty, is_digit, read_digits,
  strip_prefix, slash, show, digits, Lacks, Lacks-append, All, any, arith, Bool-cases, inl, inr,
  if◌then◌else◌, length,
}
use llmtune.Nodeops.Bind.{
  trim_matches, trim_start_matches, before, rsplit_once, parse_u16, parse_bind, bind_of, bind_parts,
}

-- The last digit is read behind the others.
read_digits-append :
    (max a c : ℕ) (s : Text)
    → read_digits max a (s ++ c ∷ [])
      ≡ elim (read_digits max a s) [ none ↦ none | some n ↦ read_digits max n (c ∷ []) ]
unfolding read_digits
read_digits-append max a c [] = refl
read_digits-append max a c (d ∷ s) =
    go (is_digit d) (leb (10 * a + (d - b'0')) max)
      (read_digits-append max (10 * a + (d - b'0')) c s)
  where
    go :
        (p q : Bool)
        → read_digits max (10 * a + (d - b'0')) (s ++ c ∷ [])
          ≡ elim (read_digits max (10 * a + (d - b'0')) s) [
            | none ↦ none
            | some n ↦ read_digits max n (c ∷ [])
          ]
        → (if p
            then (if q then read_digits max (10 * a + (d - b'0')) (s ++ c ∷ []) else none)
            else none)
          ≡ elim (if p
              then (if q then read_digits max (10 * a + (d - b'0')) s else none)
              else none) [ none ↦ none | some n ↦ read_digits max n (c ∷ []) ]
    go true true ih = ih
    go true false ih = refl
    go false q ih = refl

digit_read :
    (max a k : ℕ)
    → k < 10
    → 10 * a + k ≤ max
    → read_digits max a ((b'0' + k) ∷ []) ≡ some (10 * a + k)
unfolding read_digits
digit_read max a k h g = ground arith

then_digit :
    (max m n c : ℕ) (o : Option ℕ)
    → o ≡ some m
    → read_digits max m (c ∷ []) ≡ some n
    → (elim o [ none ↦ none | some k ↦ read_digits max k (c ∷ []) ]) ≡ some n
then_digit max m n c none e h = cc
then_digit max m n c (some k) e h = ap (λ l. read_digits max l (c ∷ [])) (same k e) ∙ h
  where
    same : (k : ℕ) → some k ≡ some m → k ≡ m
    same k e = cc

read_digits-digits : (max f n : ℕ) → n < f → n ≤ max → read_digits max 0 (digits f n) ≡ some n
unfolding digits
read_digits-digits max zero n h g = elim (none_below n h) [ ]
  where
    none_below : (n : ℕ) → n < 0 → ⊥
    none_below n h = omega arith
read_digits-digits max (suc f) n h g = elim (Bool-cases (ltb n 10)) [
  | inl one ↦ rw one (digit_read max 0 n (ground arith) (omega arith) ∙ ap some (omega arith))
  | inr more ↦ rw more (
      read_digits-append max 0 (b'0' + n % 10) (digits f (n / 10))
      ∙ then_digit max (n / 10) n (b'0' + n % 10) (read_digits max 0 (digits f (n / 10)))
          (read_digits-digits max f (n / 10) (ground arith) (omega arith))
          (digit_read max (n / 10) (n % 10) (omega arith) (omega arith) ∙ ap some (omega arith)))
]

Lacks-none : (c : ℕ) (s : Text) → Lacks (λ d. d == c) s → rsplit_once c s ≡ none
unfolding rsplit_once
Lacks-none c [] h = refl
Lacks-none c (d ∷ s) (k, h) = rw (Lacks-none c s h, k) refl

rsplit_once-last :
    (c : ℕ) (h t : Text) → Lacks (λ d. d == c) t → rsplit_once c (h ++ c ∷ t) ≡ some (h, t)
unfolding rsplit_once
rsplit_once-last c [] t l = rw (Lacks-none c t l) (ground arith)
rsplit_once-last c (d ∷ h) t l = rw (rsplit_once-last c h t l) refl

before-Lacks : (c : ℕ) (s : Text) → Lacks (λ d. d == c) s → before c s ≡ s
unfolding before
before-Lacks c [] h = refl
before-Lacks c (d ∷ s) (k, h) = rw k (ap (λ t. d ∷ t) (before-Lacks c s h))

strip_prefix-Lacks :
    (c : ℕ) (s p : Text)
    → Lacks (λ d. d == c) s
    → any (λ d. d == c) p ≡ true
    → strip_prefix s p ≡ none
unfolding strip_prefix
strip_prefix-Lacks c s [] h k = cc
strip_prefix-Lacks c [] (e ∷ p) h k = refl
strip_prefix-Lacks c (d ∷ s) (e ∷ p) (l, h) k = ground (arith, strip_prefix-Lacks c s p h)

trim_matches-none : (f : ℕ) (p s : Text) → strip_prefix s p ≡ none → trim_matches f p s ≡ s
unfolding trim_matches
trim_matches-none zero p s h = refl
trim_matches-none (suc f) p s h = stopped (strip_prefix s p) h
  where
    stopped :
        (o : Option Text) → o ≡ none → (elim o [ none ↦ s | some rest ↦ trim_matches f p rest ]) ≡ s
    stopped none e = refl
    stopped (some r) e = cc

abbrev pub AreDigits : Text → Type 0
AreDigits s = All (λ c. is_digit c ≡ true) s

AreDigits-append : (s t : Text) → AreDigits s → AreDigits t → AreDigits (s ++ t)
AreDigits-append [] t h k = k
AreDigits-append (c ∷ s) t (d, h) k = (d, AreDigits-append s t h k)

AreDigits-if : (b : Bool) (s t : Text) → AreDigits s → AreDigits t → AreDigits (if b then s else t)
AreDigits-if true s t h k = h
AreDigits-if false s t h k = k

digits-AreDigits : (f n : ℕ) → AreDigits (digits f n)
unfolding digits
digits-AreDigits zero n = tt
digits-AreDigits (suc f) n = elim (Bool-cases (ltb n 10)) [
  | inl one ↦ rw one ((ground arith, tt))
  | inr more ↦
      rw more
        (AreDigits-append (digits f (n / 10)) _ (digits-AreDigits f (n / 10)) (ground arith, tt))
]

-- What is no digit does not stand among digits.
pub AreDigits-Lacks : (c : ℕ) (s : Text) → is_digit c ≡ false → AreDigits s → Lacks (λ d. d == c) s
AreDigits-Lacks c [] h a = tt
AreDigits-Lacks c (d ∷ s) h (k, a) = (ground arith, AreDigits-Lacks c s h a)

digits-filled : (f n : ℕ) → is_empty (digits (suc f) n) ≡ false
unfolding digits
digits-filled f n = elim (Bool-cases (ltb n 10)) [
  | inl one ↦ rw one refl
  | inr more ↦ rw more (append_filled (digits f (n / 10)) (b'0' + n % 10))
]
  where
    append_filled : (s : Text) (c : ℕ) → is_empty (s ++ c ∷ []) ≡ false
    append_filled [] c = refl
    append_filled (d ∷ s) c = refl

parse_u16-digits :
    (s : Text) → is_empty s ≡ false → AreDigits s → parse_u16 s ≡ read_digits 65_535 0 s
unfolding parse_u16
parse_u16-digits [] h a = cc
parse_u16-digits (c ∷ s) h (d, a) = rw (no_plus c d) refl
  where
    no_plus : (c : ℕ) → is_digit c ≡ true → (c == b'+') ≡ false
    no_plus c d = ground arith

pub parse_u16-show : (port : ℕ) → port ≤ 65_535 → parse_u16 (show port) ≡ some port
unfolding show
parse_u16-show port h =
    parse_u16-digits (digits (suc port) port) (digits-filled port port)
      (digits-AreDigits (suc port) port)
    ∙ read_digits-digits 65_535 (suc port) port (omega arith) h

pub show-AreDigits : (n : ℕ) → AreDigits (show n)
unfolding show
show-AreDigits n = digits-AreDigits (suc n) n

-- The prefix `http://` is taken off once.
trim_http :
    (s : Text)
    → Lacks (λ d. d == slash) s
    → trim_start_matches (codes "http://") (codes "http://" ++ s) ≡ s
unfolding trim_start_matches trim_matches strip_prefix
trim_http s h =
    trim_matches-none (suc (suc (suc (suc (suc (suc (length s))))))) (codes "http://") s
      (strip_prefix-Lacks slash s (codes "http://") h refl)

trim_https : (s : Text) → Lacks (λ d. d == slash) s → trim_start_matches (codes "https://") s ≡ s
unfolding trim_start_matches
trim_https s h =
    trim_matches-none (length s) (codes "https://") s
      (strip_prefix-Lacks slash s (codes "https://") h refl)

-- The host and port of a URL `http://host:port` are read back, where the host has no slash and the
-- port fits in 16 bits; the host may hold colons.
pub parse_bind-url :
    (host : Text) (port : ℕ)
    → Lacks (λ c. c == slash) host
    → port ≤ 65_535
    → parse_bind (codes "http://" ++ (host ++ b':' ∷ show port)) ≡ (host, port)
unfolding parse_bind
parse_bind-url host port h p =
    let url : Text = host ++ b':' ∷ show port in
    let bare =
      Lacks-append (λ c. c == slash) host (b':' ∷ show port) h
        (refl, AreDigits-Lacks slash (show port) refl (show-AreDigits port)) in
    ap (λ s. bind_parts (rsplit_once b':' (before slash (trim_start_matches (codes "https://") s))))
      (trim_http url bare)
    ∙ ap (λ s. bind_parts (rsplit_once b':' (before slash s))) (trim_https url bare)
    ∙ ap (λ s. bind_parts (rsplit_once b':' s)) (before-Lacks slash url bare)
    ∙ ap bind_parts (
        rsplit_once-last b':' host (show port)
          (AreDigits-Lacks b':' (show port) refl (show-AreDigits port)))
    ∙ ap (bind_of host) (parse_u16-show port p)
