-- ===== src/Upstream/Framing.antt =====
-- Framed messages are taken out of the stream again, however it is cut into chunks.
use cidrella.Base.{
  ℕ, zero, suc, ◌+◌, ◌*◌, ◌/◌, ◌%◌, ◌≤◌, ◌≡◌, refl, ap, sym, ◌∙◌, arith, false, some, some-inj,
  List, [], ◌∷◌, ◌++◌, length, take, drop, ltb, Bool-cases, inl, inr, length-append, take-append,
  drop-append, none-ne-some, append_assoc,
}
use cidrella.Upstream.{frame_tcp_message, Extracted, extract_from, extract_tcp_messages, on_data}

module _ {ℓ} {A : Type ℓ} where
  take-append_le : (n : ℕ) (xs ys : List A) → n ≤ length xs → take n (xs ++ ys) ≡ take n xs
  take-append_le zero xs ys h = refl
  take-append_le (suc n) [] ys h = absurd (omega arith)
  take-append_le (suc n) (x ∷ xs) ys h = ap (λ t. x ∷ t) (take-append_le n xs ys (omega arith))

  drop-append_le : (n : ℕ) (xs ys : List A) → n ≤ length xs → drop n (xs ++ ys) ≡ drop n xs ++ ys
  drop-append_le zero xs ys h = refl
  drop-append_le (suc n) [] ys h = absurd (omega arith)
  drop-append_le (suc n) (x ∷ xs) ys h = drop-append_le n xs ys (omega arith)

  length-drop_le : (n : ℕ) (xs : List A) → length (drop n xs) ≤ length xs
  length-drop_le zero xs = omega arith
  length-drop_le (suc n) [] = omega arith
  length-drop_le (suc n) (x ∷ xs) = omega (arith, length-drop_le n xs)

-- Fuel beyond the length of the buffer makes no difference.
extract_from_fuel :
    (f g : ℕ) (buf : List ℕ)
    → length buf ≤ f
    → length buf ≤ g
    → extract_from f buf ≡ extract_from g buf
unfolding extract_from
extract_from_fuel zero zero buf h k = refl
extract_from_fuel zero (suc g) [] h k = refl
extract_from_fuel zero (suc g) (a ∷ buf) h k = absurd (omega arith)
extract_from_fuel (suc f) zero [] h k = refl
extract_from_fuel (suc f) zero (a ∷ buf) h k = absurd (omega arith)
extract_from_fuel (suc f) (suc g) [] h k = refl
extract_from_fuel (suc f) (suc g) (a ∷ []) h k = refl
extract_from_fuel (suc f) (suc g) (a ∷ (b ∷ tail)) h k =
    rw
      (extract_from_fuel f g (drop (a * 256 + b) tail)
        (omega (arith, length-drop_le (a * 256 + b) tail))
        (omega (arith, length-drop_le (a * 256 + b) tail)))
      (refl)

-- What is taken out of a buffer, and then of what was left with more bytes behind it.
abbrev pub followed_by : Extracted → Extracted → Extracted
followed_by a b = record { messages = a.messages ++ b.messages; rest = b.rest }

extract_from-append :
    (f g k : ℕ) (xs ys : List ℕ)
    → length xs ≤ f
    → length (xs ++ ys) ≤ g
    → length ((extract_from f xs).rest ++ ys) ≤ k
    → extract_from g (xs ++ ys)
      ≡ followed_by (extract_from f xs) (extract_from k ((extract_from f xs).rest ++ ys))
unfolding extract_from
extract_from-append zero g k [] ys h m n = extract_from_fuel g k ys m n
extract_from-append zero g k (a ∷ xs) ys h m n = absurd (omega arith)
extract_from-append (suc f) g k [] ys h m n = extract_from_fuel g k ys m n
extract_from-append (suc f) g k (a ∷ []) ys h m n = extract_from_fuel g k (a ∷ ys) m n
extract_from-append (suc f) zero k (a ∷ (b ∷ tail)) ys h m n = absurd (omega arith)
extract_from-append (suc f) (suc g) k (a ∷ (b ∷ tail)) ys h m n =
    elim (Bool-cases (ltb (length tail) (a * 256 + b))) [
      | inl short ↦
          rw short
            (extract_from_fuel (suc g) k (a ∷ b ∷ (tail ++ ys)) m (let n' = rw short at n in n'))
      | inr full ↦
          let size = a * 256 + b in
          let enough : size ≤ length tail = ground (arith, full) in
          let longer : ltb (length (tail ++ ys)) size ≡ false =
            ground (arith, length-append tail ys, enough) in
          let kept : length ((extract_from f (drop size tail)).rest ++ ys) ≤ k =
            (let n' = rw full at n in n') in
          let later =
            extract_from-append f g k (drop size tail) ys (omega (arith, length-drop_le size tail))
              (omega (
                arith,
                length-append (drop size tail) ys,
                length-append tail ys,
                length-drop_le size tail,
              ))
              kept in
          rw
            (
              full,
              longer,
              take-append_le size tail ys enough,
              drop-append_le size tail ys enough,
              later,
            )
            (refl)
    ]

-- However the stream is cut into two chunks, the messages taken out after the first and those taken
-- out after the second, with the bytes kept in between, are those of the whole stream.
pub on_data-append :
    (buf chunk more : List ℕ)
    → on_data buf (chunk ++ more)
      ≡ followed_by (on_data buf chunk) (on_data (on_data buf chunk).rest more)
unfolding on_data extract_tcp_messages
on_data-append buf chunk more =
    ap (λ t. extract_from (length t) t) (sym (append_assoc buf chunk more))
    ∙ extract_from-append (length (buf ++ chunk)) (length ((buf ++ chunk) ++ more))
        (length ((extract_from (length (buf ++ chunk)) (buf ++ chunk)).rest ++ more)) (buf ++ chunk)
        more (omega arith) (omega arith) (omega arith)

frame_lem :
    (m framed : List ℕ)
    → frame_tcp_message m ≡ some framed
    → framed ≡ length m / 256 ∷ length m % 256 ∷ m
unfolding frame_tcp_message
frame_lem m framed h = elim (Bool-cases (ltb 65535 (length m))) [
  | inl long ↦ none-ne-some (rw long at h)
  | inr fits ↦ sym (some-inj (rw fits at h))
]

framed_first :
    (m more : List ℕ)
    → extract_tcp_messages (length m / 256 ∷ length m % 256 ∷ (m ++ more))
      ≡ followed_by (record { messages = m ∷ []; rest = [] }) (extract_tcp_messages more)
unfolding extract_tcp_messages extract_from
framed_first m more =
    let size : length m / 256 * 256 + length m % 256 ≡ length m = omega arith in
    let there : ltb (length (m ++ more)) (length m) ≡ false =
      ground (arith, length-append m more) in
    let fuel =
      extract_from_fuel (suc (length (m ++ more))) (length more) more
        (omega (arith, length-append m more)) (omega arith) in
    rw (size, there, take-append m more, drop-append m more, fuel) (refl)

-- A framed message is the first message of the stream that it begins, and the bytes behind it are
-- read as they would be without it.
pub extract_tcp_messages-frame :
    (m framed more : List ℕ)
    → frame_tcp_message m ≡ some framed
    → extract_tcp_messages (framed ++ more)
      ≡ followed_by (record { messages = m ∷ []; rest = [] }) (extract_tcp_messages more)
extract_tcp_messages-frame m framed more h =
    ap (λ t. extract_tcp_messages (t ++ more)) (frame_lem m framed h) ∙ framed_first m more
