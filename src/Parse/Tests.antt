-- ===== src/Parse/Tests.antt =====
-- The theorems on what is read from text, at concrete texts.
use glb.Common.{ℕ, ◌≡◌, ◌++◌, refl, some, List, [], ◌∷◌, length, OnSome, arith}
use glb.Double.Fixed.{fixed, millionths}
use glb.SockAddr.{sockaddr_of_host, sockaddr_get_port}
use glb.Parse.Tokens.{parse_token_string, tokens_fit}
use glb.Parse.Sample.{libc}
use glb.Parse.Dst.{dst_separator, dst_parse, dst_parse-fields}

-- "a b", with a comma as the additional separator
tokens_fit_example :
    OnSome (λ (p : List (List ℕ) × ℕ). length p.0 ≡ p.1) (parse_token_string (97 ∷ 32 ∷ 98 ∷ []) 44)
tokens_fit_example = tokens_fit 97 (32 ∷ 98 ∷ []) 44 refl

-- "h:80:2"
dst_parse-fields_example :
    (dst_parse libc ((104 ∷ []) ++ dst_separator ∷ 56 ∷ 48 ∷ dst_separator ∷ 50 ∷ []) 3306
      ≡ some (3, record { addr = sockaddr_of_host 1 80; weight = millionths 2_000_000 }))
    × (sockaddr_get_port (sockaddr_of_host 1 80) ≡ 80)
dst_parse-fields_example =
    dst_parse-fields libc (104 ∷ []) (56 ∷ 48 ∷ dst_separator ∷ 50 ∷ []) (50 ∷ []) 3306 1 80
      (millionths 2_000_000) (refl, tt) (omega arith) refl refl (omega arith) refl
