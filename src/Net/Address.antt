-- ===== src/Net/Address.antt =====
-- `SocketAddr` from the text "ip:port", as `Session::get_target_addr` (session.rs) builds and parses it:
-- the standard library's rules for IPv4; the form with brackets for IPv6 is an argument.
use Prim.Native.Char.{Char, code}
use Prim.Native.String
use udp_director.Prelude.{
  ℕ, zero, suc, ◌+◌, ◌*◌, ◌/◌, ◌%◌, ◌^◌, String, Bool, true, false, not, Option, none, some, List,
  [], ◌∷◌, ltb, nat_beq, if◌then◌else◌,
}
use udp_director.Text.{split, digits, bounded}
use udp_director.Net.Defs.{v4, SocketAddr}

-- At most three digits, with no leading zero, below 256.
abbrev pub has_octet_form : String → Bool
has_octet_form String.[] = false
has_octet_form (String.◌∷◌ a String.[]) = true
has_octet_form (String.◌∷◌ a (String.◌∷◌ b String.[])) = not (nat_beq (code a) b'0')
has_octet_form (String.◌∷◌ a (String.◌∷◌ b (String.◌∷◌ c String.[]))) = not (nat_beq (code a) b'0')
has_octet_form (String.◌∷◌ a (String.◌∷◌ b (String.◌∷◌ c (String.◌∷◌ d s)))) = false

abbrev pub octet : String → Option ℕ
octet text = if has_octet_form text then bounded 256 (digits text) else none

abbrev pub join_octets : Option ℕ → Option ℕ → Option ℕ → Option ℕ → Option ℕ
join_octets (some a) (some b) (some c) (some d) = some (((a * 256 + b) * 256 + c) * 256 + d)
join_octets _ _ _ _ = none

abbrev pub four_octets : List String → Option ℕ
four_octets (a ∷ b ∷ c ∷ d ∷ []) = join_octets (octet a) (octet b) (octet c) (octet d)
four_octets _ = none

unfoldable pub parse_ipv4 : String → Option ℕ
parse_ipv4 text = four_octets (split b'.' text)

abbrev pub socket_of : Option ℕ → Option ℕ → Option SocketAddr
socket_of (some ip) (some port) = some (record { ip = v4 ip; port = port })
socket_of _ _ = none

abbrev pub host_and_port : List String → Option SocketAddr
host_and_port (host ∷ port ∷ []) = socket_of (parse_ipv4 host) (bounded (2 ^ 16) (digits port))
host_and_port _ = none

unfoldable pub parse_socket_v4 : String → Option SocketAddr
unfolding parse_ipv4
parse_socket_v4 text = host_and_port (split b':' text)

-- `Display` of a number: its decimal digits, before those already written.
abbrev pub digit : ℕ → Char
digit zero = "0"
digit (suc zero) = "1"
digit (suc (suc zero)) = "2"
digit (suc (suc (suc zero))) = "3"
digit (suc (suc (suc (suc zero)))) = "4"
digit (suc (suc (suc (suc (suc zero))))) = "5"
digit (suc (suc (suc (suc (suc (suc zero)))))) = "6"
digit (suc (suc (suc (suc (suc (suc (suc zero))))))) = "7"
digit (suc (suc (suc (suc (suc (suc (suc (suc zero)))))))) = "8"
digit _ = "9"

unfoldable pub show_from : ℕ → ℕ → String → String
show_from zero n written = written
show_from (suc fuel) n written =
    let more = show_from fuel (n / 10) (String.◌∷◌ (digit (n % 10)) written) in
    if ltb n 10 then String.◌∷◌ (digit n) written else more

-- A `u16` has at most five digits.
unfoldable pub show_u16 : ℕ → String
unfolding show_from
show_u16 n = show_from 5 n String.[]

-- `format!("{ip}:{port}").parse()`: `parse_v6` is the parser for the form with brackets.
unfoldable pub socket_addr : (String → Option SocketAddr) → String → ℕ → Option SocketAddr
unfolding parse_socket_v4 show_u16
socket_addr parse_v6 ip port =
    let text = String.◌++◌ ip (String.◌++◌ ":" (show_u16 port)) in
    elim (parse_socket_v4 text) [ some addr ↦ some addr | none ↦ parse_v6 text ]

abbrev show_u8 : ℕ → String
show_u8 n = show_from 3 n String.[]

-- `Ipv4Addr::to_string`
unfoldable pub show_ipv4 : ℕ → String
unfolding show_from
show_ipv4 n = String.◌++◌ (show_u8 (n / 2 ^ 24)) (
    String.◌∷◌ "." (
      String.◌++◌ (show_u8 (n / 2 ^ 16 % 256)) (
        String.◌∷◌ "."
          (String.◌++◌ (show_u8 (n / 2 ^ 8 % 256)) (String.◌∷◌ "." (show_u8 (n % 256)))))))
