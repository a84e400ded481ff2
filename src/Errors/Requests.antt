-- ===== src/Errors/Requests.antt =====
-- Which request LockingTransport finds in a message.
use adtler.Prelude.{
  ℕ, zero, suc, ◌≤◌, length, length-take, ◌≡◌, refl, ap, sym, ◌∙◌, Bool, true, false, not, ◌&&◌,
  ◌||◌, List, [], ◌∷◌, ◌++◌, some, take, drop, take-append-drop, last?, Text, arith, Bool-cases,
  inl, inr, &&_true, ◌==◌,
}
use adtler.Errors.{
  AdtError, is_upper, is_digit, is_word, starts_with_word, digits_end, request_at, find_requests,
  locking_transport,
}

find_requests-tail :
    (within : Bool) (c : ℕ) (s : Text)
    → find_requests within (c ∷ s) ≡ []
    → find_requests (is_word c) s ≡ []
unfolding find_requests
find_requests-tail within c s h = ground arith

digit_word : (c : ℕ) → is_digit c ≡ true → is_word c ≡ true
unfolding is_word
digit_word c h = ground arith

-- Behind the digits of a request, a scan that finds nothing among them finds what it would find
-- within a word.
after_digits :
    (n : ℕ) (within : Bool) (s : Text)
    → digits_end (suc n) s ≡ true
    → find_requests within s ≡ []
    → find_requests true (drop (suc n) s) ≡ []
unfolding digits_end
after_digits n within [] h none_found = absurd (cc h)
after_digits zero within (c ∷ s) h none_found =
    let digit = (&&_true (is_digit c) (not (starts_with_word s)) h).0 in
    rw (digit_word c digit) at (find_requests-tail within c s none_found)
after_digits (suc n) within (c ∷ s) h none_found =
    after_digits n (is_word c) s (&&_true (is_digit c) (digits_end (suc n) s) h).1
      (find_requests-tail within c s none_found)

last_of_five : (a b c d e : Bool) → (a && b && c && d && e) ≡ true → e ≡ true
last_of_five a b c d e h = ground arith

request_digits :
    (a b c k : ℕ) (s : Text) → request_at (a ∷ b ∷ c ∷ k ∷ s) ≡ true → digits_end 6 s ≡ true
unfolding request_at
request_digits a b c k s h =
    last_of_five (is_upper a) (is_upper b || is_digit b) (is_upper c || is_digit c) (k == b'K')
      (digits_end 6 s) h

-- The digits are there, and no word goes on behind them.
digits_length :
    (n : ℕ) (s : Text)
    → digits_end n s ≡ true
    → (n ≤ length s) × (starts_with_word (drop n s) ≡ false)
unfolding digits_end starts_with_word
digits_length zero s h = (omega arith, ground (arith, h))
digits_length (suc n) [] h = absurd (cc h)
digits_length (suc n) (c ∷ s) h =
    let (enough, ends) = digits_length n s (&&_true (is_digit c) (digits_end n s) h).1 in
    (omega (arith, enough), ends)

request_length :
    (c : ℕ) (s : Text)
    → request_at (c ∷ s) ≡ true
    → (9 ≤ length s) × (starts_with_word (drop 9 s) ≡ false)
request_length c [] h = absurd (unfold request_at in cc h)
request_length c (d ∷ []) h = absurd (unfold request_at in cc h)
request_length c (d ∷ f ∷ []) h = absurd (unfold request_at in cc h)
request_length c (d ∷ f ∷ k ∷ tail) h =
    let (enough, ends) = digits_length 6 tail (request_digits c d f k tail h) in
    (omega (arith, enough), ends)

length-take_ten : (c : ℕ) (s : Text) → 9 ≤ length s → length (take 10 (c ∷ s)) ≡ 10
length-take_ten c s enough = omega (arith, length-take 10 (c ∷ s), enough)

after_request :
    (within : Bool) (c : ℕ) (s : Text)
    → request_at (c ∷ s) ≡ true
    → find_requests within s ≡ []
    → find_requests true (drop 9 s) ≡ []
after_request within c [] h none_found = absurd (unfold request_at in cc h)
after_request within c (d ∷ []) h none_found = absurd (unfold request_at in cc h)
after_request within c (d ∷ f ∷ []) h none_found = absurd (unfold request_at in cc h)
after_request within c (d ∷ f ∷ k ∷ tail) h none_found =
    after_digits 5 (is_word k) tail (request_digits c d f k tail h) (
      find_requests-tail (is_word f) k tail (
        find_requests-tail (is_word d) f (k ∷ tail)
          (find_requests-tail within d (f ∷ k ∷ tail) none_found)))

-- A request in a text, ten characters that no word goes on behind, with none that begins behind it.
pub data LastRequest (s t : Text) : Type 0 where
  last_request :
      (before after : Text)
      → s ≡ before ++ (t ++ after)
      → length t ≡ 10
      → starts_with_word after ≡ false
      → request_at (t ++ after) ≡ true
      → find_requests true after ≡ []
      → LastRequest s t

LastRequest-cons : (c : ℕ) (s t : Text) → LastRequest s t → LastRequest (c ∷ s) t
LastRequest-cons c s t (last_request before after e ten ends is_request none_after) =
    last_request (c ∷ before) after (ap (λ (u : Text). c ∷ u) e) ten ends is_request none_after

last?-cons : (x y t : Text) (ys : List Text) → last? (x ∷ y ∷ ys) ≡ some t → last? (y ∷ ys) ≡ some t
unfolding last?
last?-cons x y t ys h = h

some_injective : (x t : Text) → some x ≡ some t → x ≡ t
some_injective x t h = ground arith

module _ (c : ℕ) (s t : Text) where
  found_here :
      request_at (c ∷ s) ≡ true
      → take 10 (c ∷ s) ≡ t
      → find_requests (is_word c) s ≡ []
      → LastRequest (c ∷ s) t
  found_here h e none_after =
      let whole = take-append-drop 10 (c ∷ s) in
      let parts : c ∷ s ≡ t ++ drop 9 s = sym whole ∙ ap (λ (u : Text). u ++ drop 9 s) e in
      let (enough, ends) = request_length c s h in
      last_request [] (drop 9 s) parts (rw (sym e) (length-take_ten c s enough)) ends
        (rw parts at h) (after_request (is_word c) c s h none_after)

find_requests-LastRequest :
    (within : Bool) (s t : Text) → last? (find_requests within s) ≡ some t → LastRequest s t
unfolding find_requests last?
find_requests-LastRequest within [] t h = absurd (cc h)
find_requests-LastRequest within (c ∷ s) t h =
    let ih = find_requests-LastRequest (is_word c) s t in
    elim (Bool-cases (not within && request_at (c ∷ s))) [
      | inr e ↦ LastRequest-cons c s t (ih (rw e at h))
      | inl e ↦
          here_or_later (find_requests (is_word c) s) refl
            (&&_true (not within) (request_at (c ∷ s)) e).1 (rw e at h) ih
    ]
  where
    here_or_later :
        (rest : List Text)
        → find_requests (is_word c) s ≡ rest
        → request_at (c ∷ s) ≡ true
        → last? (take 10 (c ∷ s) ∷ rest) ≡ some t
        → (last? (find_requests (is_word c) s) ≡ some t → LastRequest s t)
        → LastRequest (c ∷ s) t
    here_or_later [] e found h ih =
        let first : take 10 (c ∷ s) ≡ t = some_injective (take 10 (c ∷ s)) t h in
        found_here c s t found first e
    here_or_later (y ∷ ys) e found h ih =
        LastRequest-cons c s t (ih (rw e (last?-cons (take 10 (c ∷ s)) y t ys h)))

-- The request that LockingTransport returns is ten characters of the message, in the format of a
-- request, that no character of a word follows, and no other request begins behind it.
pub locking_transport-LastRequest :
    (e : AdtError) (t : Text) → locking_transport e ≡ some t → LastRequest e.message t
unfolding locking_transport
locking_transport-LastRequest e t h = find_requests-LastRequest false e.message t h
