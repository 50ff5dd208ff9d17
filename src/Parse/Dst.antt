-- ===== src/Parse/Dst.antt =====
-- src/glb_dst.c: destinations from text, `glb_dst_parse`, and src/glb_socket.c, `glb_sockaddr_init`.
use glb.Common.{
  ℕ, ◌≤◌, ◌<◌, ◌^◌, ◌≡◌, refl, ap, ◌∙◌, false, Option, none, some, List, [], ◌∷◌, ◌++◌, length, ltb,
  ◌==◌, arith, if◌then◌else◌, All,
}
use glb.Double.{Double}
use glb.SockAddr.{sockaddr_of_host, sockaddr_get_port, htons}
use glb.Dst.{Dst}

-- The functions of the C library that the parser calls: the number at the start of a text and the
-- text after it, and the address of a host.
pub record Libc (F : Type 0) : Type 0 where
  pub strtoul : List ℕ → ℕ × List ℕ
  pub strtod : List ℕ → F × List ℕ
  pub gethostbyname : List ℕ → Option ℕ

-- ':'
abbrev pub dst_separator : ℕ
dst_separator = 58

-- The text before the first separator, and what follows it, if there is one.
unfoldable pub split_host : List ℕ → List ℕ × Option (List ℕ)
split_host [] = ([], none)
split_host (c ∷ cs) =
    let (host, rest) = split_host cs in
    if c == dst_separator then ([], some cs) else (c ∷ host, rest)

-- No separator is part of the host.
abbrev IsHost : List ℕ → Type 0
IsHost = All λ c. (c == dst_separator) ≡ false

split-append :
    (host rest : List ℕ)
    → IsHost host
    → split_host (host ++ dst_separator ∷ rest) ≡ (host, some rest)
unfolding split_host
split-append [] rest h = refl
split-append (c ∷ host) rest h =
    rw h.0 (ap (λ (p : List ℕ × Option (List ℕ)). (c ∷ p.0, p.1)) (split-append host rest h.1))

module _ {F : Type 0} ⦃fp : Double F⦄ where
  open fp use {one}

  -- The number of fields, and the destination, if the host is known.
  unfoldable resolve : Libc F → ℕ → List ℕ → ℕ → F → Option (ℕ × Dst F)
  resolve libc fields host port weight = elim (libc.gethostbyname host) [
    | none ↦ none
    | some h ↦ some (fields, record { addr = sockaddr_of_host h port; weight = weight })
  ]

  unfoldable parse_weight : Libc F → List ℕ → ℕ → List ℕ → Option (ℕ × Dst F)
  unfolding resolve
  parse_weight libc host port token =
      let (weight, end) = libc.strtod token in
      if length end == 0 then resolve libc 3 host port weight else none

  -- What follows the port: nothing, or a separator and the weight.
  unfoldable after_port : Libc F → List ℕ → ℕ → List ℕ → Option (ℕ × Dst F)
  unfolding parse_weight
  after_port libc host port [] = resolve libc 2 host port one
  after_port libc host port (c ∷ token) =
      if c == dst_separator then parse_weight libc host port token else none

  unfoldable parse_port : Libc F → List ℕ → List ℕ → Option (ℕ × Dst F)
  unfolding after_port
  parse_port libc host token =
      let (port, end) = libc.strtoul token in
      if ltb 65535 port then none else after_port libc host port end

  unfoldable pub dst_parse : Libc F → List ℕ → ℕ → Option (ℕ × Dst F)
  unfolding split_host parse_port
  dst_parse libc s default_port =
      let (host, rest) = split_host s in
      if ltb 256 (length host) then none else elim rest [
        | none ↦ resolve libc 1 host default_port one
        | some token ↦ parse_port libc host token
      ]

  host-lem :
      (libc : Libc F) (host text : List ℕ) (default_port : ℕ)
      → IsHost host
      → length host ≤ 256
      → dst_parse libc (host ++ dst_separator ∷ text) default_port ≡ parse_port libc host text
  unfolding dst_parse
  host-lem libc host text default_port i l =
      let short : ltb 256 (length host) ≡ false = ground arith in
      ap
        (λ (q : List ℕ × Option (List ℕ)). if ltb 256 (length q.0) then none else elim q.1 [
          | none ↦ resolve libc 1 q.0 default_port one
          | some t ↦ parse_port libc q.0 t
        ])
        (split-append host text i)
      ∙ ap (λ b. if b then none else parse_port libc host text) short

  port-lem :
      (libc : Libc F) (host text rest : List ℕ) (port : ℕ)
      → libc.strtoul text ≡ (port, dst_separator ∷ rest)
      → port < 2 ^ 16
      → parse_port libc host text ≡ parse_weight libc host port rest
  unfolding parse_port after_port
  port-lem libc host text rest port u p =
      let small : ltb 65535 port ≡ false = ground arith in
      ap (λ (q : ℕ × List ℕ). if ltb 65535 q.0 then none else after_port libc host q.0 q.1) u
      ∙ ap (λ b. if b then none else parse_weight libc host port rest) small

  weight-lem :
      (libc : Libc F) (host text : List ℕ) (h port : ℕ) (weight : F)
      → libc.strtod text ≡ (weight, [])
      → libc.gethostbyname host ≡ some h
      → parse_weight libc host port text
        ≡ some (3, record { addr = sockaddr_of_host h port; weight = weight })
  unfolding parse_weight resolve
  weight-lem libc host text h port weight d g =
      ap (λ (q : F × List ℕ). if length q.1 == 0 then resolve libc 3 host port q.0 else none) d
      ∙ ap
          (λ (o : Option ℕ). elim o as (λ _. Option (ℕ × Dst F)) [
            | none ↦ none
            | some x ↦ some (3, record { addr = sockaddr_of_host x port; weight = weight })
          ])
          g

  -- A text `host:port:weight` is read as such: where the host has at most 256 characters, none of them
  -- a separator, and is known, the port is a 16-bit number and the weight ends the text, the three
  -- fields are those of the destination, and the port that is read back from its address is the port.
  pub dst_parse-fields :
      (libc : Libc F) (host port_text weight_text : List ℕ) (default_port h port : ℕ) (weight : F)
      → IsHost host
      → length host ≤ 256
      → libc.gethostbyname host ≡ some h
      → libc.strtoul port_text ≡ (port, dst_separator ∷ weight_text)
      → port < 2 ^ 16
      → libc.strtod weight_text ≡ (weight, [])
      → (dst_parse libc (host ++ dst_separator ∷ port_text) default_port
          ≡ some (3, record { addr = sockaddr_of_host h port; weight = weight }))
        × (sockaddr_get_port (sockaddr_of_host h port) ≡ port)
  unfolding sockaddr_of_host sockaddr_get_port htons
  dst_parse-fields libc host port_text weight_text default_port h port weight i l g u p d = (
    host-lem libc host port_text default_port i l
        ∙ port-lem libc host port_text weight_text port u p
        ∙ weight-lem libc host weight_text h port weight d g,
    ground arith,
  )
