-- ===== src/SockAddr/Text.antt =====
-- src/glb_socket.c: addresses as texts, `glb_sockaddr_to_str` and `glb_sockaddr_to_astr`, whose buffer
-- has 22 bytes. A failed assertion is none.
use glb.Common.{
  ℕ, zero, suc, ◌+◌, ◌-◌, ◌≤◌, ◌<◌, ◌≡◌, refl, ap, ◌∙◌, sym, true, Option, none, some, List, [],
  ◌∷◌, ◌++◌, length, length-append, take, drop, ltb, ◌&&◌, arith, if◌then◌else◌, if_at_true,
}
use glb.SockAddr.{SockAddr, htons, bytes_of}
use glb.Backend.Command.{port_digits}

-- `%hhu.%hhu.%hhu.%hhu` of the four bytes
abbrev dotted : List ℕ → List ℕ
dotted [] = []
dotted (b ∷ []) = port_digits b
dotted (b ∷ c ∷ bs) = port_digits b ++ (b'.' ∷ dotted (c ∷ bs))

unfoldable pub ip_text : SockAddr → List ℕ
ip_text addr = dotted (bytes_of addr.sin_addr)

unfoldable pub port_text : SockAddr → List ℕ
port_text addr = b':' ∷ port_digits (htons addr.sin_port)

-- `snprintf` leaves room for the NUL.
unfoldable pub sockaddr_to_str : SockAddr → List ℕ
unfolding ip_text port_text
sockaddr_to_str addr = take 21 (ip_text addr ++ port_text addr)

abbrev pub spaces : ℕ → List ℕ
spaces zero = []
spaces (suc n) = b' ' ∷ spaces n

-- `memcpy (buf + at, src, length of src)`
abbrev put : ℕ → List ℕ → List ℕ → List ℕ
put at src buf = take at buf ++ (src ++ drop (at + length src) buf)

-- The text so that the colon is on position 15.
unfoldable pub sockaddr_to_astr : SockAddr → Option (List ℕ)
unfolding ip_text port_text
sockaddr_to_astr addr =
    let ip = ip_text addr in
    let port = port_text addr in
    if ltb (length ip) 16 && ltb (length port) 7
    then some (put 15 port (put (15 - length ip) ip (spaces 21)))
    else none

digits-bound : (b : ℕ) → b < 256 → length (port_digits b) ≤ 3
unfolding port_digits
digits-bound b h = ground arith

port-bound : (p : ℕ) → length (port_digits p) ≤ 5
unfolding port_digits
port-bound p = ground arith

dotted4 :
    (a b c d : ℕ)
    → a < 256
    → b < 256
    → c < 256
    → d < 256
    → length (dotted (a ∷ b ∷ c ∷ d ∷ [])) ≤ 15
dotted4 a b c d ha hb hc hd = omega (
  arith,
  length-append (port_digits a) (b'.' ∷ dotted (b ∷ c ∷ d ∷ [])),
  length-append (port_digits b) (b'.' ∷ dotted (c ∷ d ∷ [])),
  length-append (port_digits c) (b'.' ∷ dotted (d ∷ [])),
  digits-bound a ha,
  digits-bound b hb,
  digits-bound c hc,
  digits-bound d hd,
)

ip_text-bound : (addr : SockAddr) → length (ip_text addr) ≤ 15
unfolding ip_text
ip_text-bound addr = dotted4 _ _ _ _ (omega arith) (omega arith) (omega arith) (omega arith)

take-append : (xs ys : List ℕ) → take (length xs) (xs ++ ys) ≡ xs
take-append [] ys = refl
take-append (x ∷ xs) ys = ap (◌∷◌ x) (take-append xs ys)

take_all : (n : ℕ) (xs : List ℕ) → length xs ≤ n → take n xs ≡ xs
take_all zero [] h = refl
take_all zero (x ∷ xs) h = absurd (omega arith)
take_all (suc n) [] h = refl
take_all (suc n) (x ∷ xs) h = ap (◌∷◌ x) (take_all n xs (omega arith))

drop-spaces : (n m k : ℕ) → k ≡ n + m → drop n (spaces k) ≡ spaces m
drop-spaces zero m k e = ap spaces (omega (arith, e))
drop-spaces (suc n) m zero e = absurd (omega (arith, e))
drop-spaces (suc n) m (suc k) e = drop-spaces n m k (omega (arith, e))

drop-append :
    (xs : List ℕ) (n m k j : ℕ) → j ≡ length xs + n → k ≡ n + m → drop j (xs ++ spaces k) ≡ spaces m
drop-append [] n m k j f e = ap (λ i. drop i (spaces k)) (omega (arith, f)) ∙ drop-spaces n m k e
drop-append (x ∷ xs) n m k zero f e = absurd (omega (arith, f))
drop-append (x ∷ xs) n m k (suc j) f e = drop-append xs n m k j (omega (arith, f)) e

-- What is put behind a text, over the spaces there.
put-append :
    (xs ys : List ℕ) (at k m : ℕ)
    → at ≡ length xs
    → k ≡ length ys + m
    → put at ys (xs ++ spaces k) ≡ xs ++ (ys ++ spaces m)
put-append xs ys at k m a e =
    ap (λ zs. take at (xs ++ spaces k) ++ (ys ++ zs))
      (drop-append xs (length ys) m k (at + length ys) (omega (arith, a)) e)
    ∙ ap (λ zs. zs ++ (ys ++ spaces m))
        (ap (λ i. take i (xs ++ spaces k)) a ∙ take-append xs (spaces k))

spaces-append : (n m k : ℕ) → k ≡ n + m → spaces k ≡ spaces n ++ spaces m
spaces-append zero m k e = ap spaces (omega (arith, e))
spaces-append (suc n) m zero e = absurd (omega (arith, e))
spaces-append (suc n) m (suc k) e = ap (◌∷◌ b' ') (spaces-append n m k (omega (arith, e)))

length-spaces : (n : ℕ) → length (spaces n) ≡ n
length-spaces zero = refl
length-spaces (suc n) = ap suc (length-spaces n)

append_assoc : (xs ys zs : List ℕ) → (xs ++ ys) ++ zs ≡ xs ++ (ys ++ zs)
append_assoc [] ys zs = refl
append_assoc (x ∷ xs) ys zs = ap (◌∷◌ x) (append_assoc xs ys zs)

port_text-bound : (addr : SockAddr) → length (port_text addr) ≤ 6
unfolding port_text
port_text-bound addr = omega (arith, port-bound (htons addr.sin_port))

-- The aligned buffer of two texts that are not too long.
aligned :
    (ip port : List ℕ)
    → length ip ≤ 15
    → length port ≤ 6
    → put 15 port (put (15 - length ip) ip (spaces 21))
      ≡ spaces (15 - length ip) ++ ((ip ++ port) ++ spaces (6 - length port))
aligned ip port hi hp =
    let left = 15 - length ip in
    let wide : length (spaces left ++ ip) ≡ 15 =
      omega (arith, length-append (spaces left) ip, length-spaces left) in
    ap (put 15 port) (
      ap (put left ip) (spaces-append left (length ip + 6) 21 (omega arith))
      ∙ put-append (spaces left) ip left (length ip + 6) 6 (sym (length-spaces left)) refl
      ∙ sym (append_assoc (spaces left) ip (spaces 6)))
    ∙ put-append (spaces left ++ ip) port 15 6 (6 - length port) (sym wide) (omega arith)
    ∙ append_assoc (spaces left) ip (port ++ spaces (6 - length port))
    ∙ ap (λ zs. spaces left ++ zs) (sym (append_assoc ip port (spaces (6 - length port))))

-- No address is too long for its buffer: the plain text is whole, no assertion of the aligned one fails,
-- and that is the plain text with spaces around it such that the colon is on position 15.
pub sockaddr_to_astr-aligned :
    (addr : SockAddr)
    → (sockaddr_to_str addr ≡ ip_text addr ++ port_text addr)
      × (sockaddr_to_astr addr
          ≡ some (
              spaces (15 - length (ip_text addr))
              ++ (sockaddr_to_str addr ++ spaces (6 - length (port_text addr)))))
unfolding sockaddr_to_astr sockaddr_to_str
sockaddr_to_astr-aligned addr =
    let ip = ip_text addr in
    let port = port_text addr in
    let hi : length ip ≤ 15 = ip_text-bound addr in
    let hp : length port ≤ 6 = port_text-bound addr in
    let whole : take 21 (ip ++ port) ≡ ip ++ port =
      take_all 21 (ip ++ port) (omega (arith, length-append ip port)) in
    let fits : (ltb (length ip) 16 && ltb (length port) 7) ≡ true = ground (arith, hi, hp) in
    (
      whole,
      if_at_true _ none fits
          ∙ ap some (
              aligned ip port hi hp
              ∙ ap (λ zs. spaces (15 - length ip) ++ (zs ++ spaces (6 - length port))) (sym whole)),
    )
