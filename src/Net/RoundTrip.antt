-- ===== src/Net/RoundTrip.antt =====
-- The texts of IPv4 addresses, as the standard library prints and parses them.
use Prim.Native.String
use text.Mathlib.TextLemmas.{nil-append, cons-append}
use udp_director.Prelude.{
  ℕ, ◌+◌, ◌*◌, ◌/◌, ◌%◌, ◌^◌, ◌<◌, ◌≡◌, refl, ap, inl, inr, String, true, Option, some, [], ◌∷◌,
  arith, ltb, Bool-cases,
}
use udp_director.Text.{split_from, split}
use udp_director.Net.Defs.{v4, SocketAddr}
use udp_director.Net.Address.{
  show_from, show_u16, has_octet_form, octet, parse_ipv4, parse_socket_v4, socket_addr, show_ipv4,
}
use udp_director.Net.Numbers.{
  Without, split_from-whole, split_from-at, digits-show_from, show_from-Without, digit-code,
}

octet-form : (n : ℕ) → n < 256 → has_octet_form (show_from 3 n String.[]) ≡ true
unfolding show_from
octet-form n h = elim (Bool-cases (ltb n 10)) [
  | inl one ↦ rw one refl
  | inr more ↦ elim (Bool-cases (ltb (n / 10) 10)) [
    | inl two ↦
        let is = digit-code (n / 10) (ground (arith, two)) in
        rw (more, two) (ground (arith, is, more))
    | inr three ↦
        let small : ltb (n / 10 / 10) 10 ≡ true = ground (arith, h) in
        let is = digit-code (n / 10 / 10) (omega (arith, h)) in
        rw (more, three, small) (ground (arith, is, three))
  ]
]

octet-show : (n : ℕ) → n < 256 → octet (show_from 3 n String.[]) ≡ some n
octet-show n h = rw (octet-form n h, digits-show_from 2 n (omega (arith, h))) (ground (arith, h))

pub Without-append :
    (sep : ℕ) (s t : String) → Without sep s → Without sep t → Without sep (String.◌++◌ s t)
Without-append sep String.[] t h k = rw (nil-append t) k
Without-append sep (String.◌∷◌ c s) t (ne, h) k =
    rw (cons-append c s t) (ne, Without-append sep s t h k)

show_ipv4-Without : (n : ℕ) → Without b':' (show_ipv4 n)
unfolding show_ipv4
show_ipv4-Without n =
    let part : (k : ℕ) → Without b':' (show_from 3 k String.[]) =
      λ k. show_from-Without b':' 3 k String.[] refl tt in
    Without-append b':' (show_from 3 (n / 2 ^ 24) String.[]) _ (part (n / 2 ^ 24)) (
      refl,
      Without-append b':' (show_from 3 (n / 2 ^ 16 % 256) String.[]) _ (part (n / 2 ^ 16 % 256)) (
        refl,
        Without-append b':' (show_from 3 (n / 2 ^ 8 % 256) String.[]) _ (part (n / 2 ^ 8 % 256))
            (refl, part (n % 256)),
      ),
    )

octets_joined :
    (n : ℕ) → ((n / 2 ^ 24 * 256 + n / 2 ^ 16 % 256) * 256 + n / 2 ^ 8 % 256) * 256 + n % 256 ≡ n
octets_joined n = omega arith

split_octet :
    (k : ℕ) (rest : String)
    → split_from b'.' String.[] (String.◌++◌ (show_from 3 k String.[]) (String.◌∷◌ "." rest))
      ≡ show_from 3 k String.[] ∷ split_from b'.' String.[] rest
split_octet k rest =
    rw
      (
        split_from-at b'.' "." String.[] (show_from 3 k String.[]) rest refl
            (show_from-Without b'.' 3 k String.[] refl tt),
        nil-append (show_from 3 k String.[]),
      )
      refl

split_last :
    (k : ℕ) → split_from b'.' String.[] (show_from 3 k String.[]) ≡ show_from 3 k String.[] ∷ []
split_last k =
    rw
      (
        split_from-whole b'.' String.[] (show_from 3 k String.[])
            (show_from-Without b'.' 3 k String.[] refl tt),
        nil-append (show_from 3 k String.[]),
      )
      refl

-- The text of an IPv4 address is read back as the address.
pub parse_ipv4-show_ipv4 : (n : ℕ) → n < 2 ^ 32 → parse_ipv4 (show_ipv4 n) ≡ some n
unfolding parse_ipv4 show_ipv4 split
parse_ipv4-show_ipv4 n h =
    rw
      (
        split_octet (n / 2 ^ 24) (
            String.◌++◌ (show_from 3 (n / 2 ^ 16 % 256) String.[]) (
              String.◌∷◌ "." (
                String.◌++◌ (show_from 3 (n / 2 ^ 8 % 256) String.[])
                  (String.◌∷◌ "." (show_from 3 (n % 256) String.[]))))),
        split_octet (n / 2 ^ 16 % 256) (
            String.◌++◌ (show_from 3 (n / 2 ^ 8 % 256) String.[])
              (String.◌∷◌ "." (show_from 3 (n % 256) String.[]))),
        split_octet (n / 2 ^ 8 % 256) (show_from 3 (n % 256) String.[]),
        split_last (n % 256),
        octet-show (n / 2 ^ 24) (omega (arith, h)),
        octet-show (n / 2 ^ 16 % 256) (omega arith),
        octet-show (n / 2 ^ 8 % 256) (omega arith),
        octet-show (n % 256) (omega arith),
      )
      (ap some (octets_joined n))

split_host :
    (n port : ℕ)
    → split b':' (String.◌++◌ (show_ipv4 n) (String.◌∷◌ ":" (show_u16 port)))
      ≡ show_ipv4 n ∷ show_u16 port ∷ []
unfolding split show_u16
split_host n port =
    rw
      (
        split_from-at b':' ":" String.[] (show_ipv4 n) (show_u16 port) refl (show_ipv4-Without n),
        nil-append (show_ipv4 n),
        split_from-whole b':' String.[] (show_u16 port)
            (show_from-Without b':' 5 port String.[] refl tt),
        nil-append (show_u16 port),
      )
      refl

-- An IPv4 address and a port that are formatted as a target are parsed as the socket address of both.
pub socket_addr-show_ipv4 :
    (parse_v6 : String → Option SocketAddr) (n port : ℕ)
    → n < 2 ^ 32
    → port < 2 ^ 16
    → socket_addr parse_v6 (show_ipv4 n) port ≡ some (record { ip = v4 n; port = port })
unfolding socket_addr parse_socket_v4 show_u16
socket_addr-show_ipv4 parse_v6 n port h small =
    rw
      (
        socket_addr,
        cons-append ":" String.[] (show_u16 port),
        nil-append (show_u16 port),
        split_host n port,
        parse_ipv4-show_ipv4 n h,
        digits-show_from 4 port (omega (arith, small)),
      )
      (ground (arith, small))
