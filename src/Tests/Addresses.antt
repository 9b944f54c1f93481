-- ===== src/Tests/Addresses.antt =====
-- Binds, and the text of local addresses.
use nonecorn.Prelude.{◌≡◌, ◌++◌, ◌∷◌, refl, some, none, if◌then◌else◌, ℕ, Option}
use nonecorn.Bytes.{Text, codes, same, starts_with}
use nonecorn.Exec.{ok}
use nonecorn.Addresses.{SocketAddress, repr_socket_addr}
use nonecorn.Binds.{Binding, parse_bind}
use nonecorn.Binds.Laws.{parse_bind-portless, parse_bind-repr_socket_addr}

abbrev show : ℕ → Text
show n = codes "80"

-- reads "80" and "1"
abbrev int : Text → Option ℕ
int text =
    if same text (codes "80") then some 80 else if same text (codes "1") then some 1 else none

parse_bind-repr_socket_addr_example :
    (parse_bind int 8000 (repr_socket_addr show (SocketAddress.inet (codes "localhost") 80))
      ≡ ok (Binding.inet (codes "localhost") 80))
    × (parse_bind int 8000 (repr_socket_addr show (SocketAddress.inet6 (codes "::1") 80))
        ≡ ok (Binding.inet6 (codes "::1") 80))
unfolding repr_socket_addr starts_with same
parse_bind-repr_socket_addr_example =
    parse_bind-repr_socket_addr int 8000 show 80 (codes "localhost") (codes "::1") refl refl refl
      refl refl refl

parse_bind-portless_example :
    parse_bind int 8000 (codes "[" ++ ((codes ":" ++ (b':' ∷ codes "1")) ++ codes "]"))
    ≡ ok (Binding.inet6 (codes ":") 1)
unfolding same
parse_bind-portless_example =
    parse_bind-portless int 8000 (codes ":") (codes "1") 1 refl refl refl refl
