-- ===== src/Binds/Laws.antt =====
-- How the text of a bind (config.py) and that of an address (utils.py, `repr_socket_addr`) fit.
use nonecorn.Prelude.{
  append-nil, if◌then◌else◌, ◌||◌, false, any, ◌∙◌, ap, Option, ◌≡◌, ◌∷◌, ◌==◌, ◌++◌, ◌&&◌, ℕ, true,
  some, refl, not, none, arith, all, [], Bool,
}
use nonecorn.Bytes.{Text, codes, starts_with}
use nonecorn.Exec.{ok}
use nonecorn.Addresses.{SocketAddress, repr_socket_addr}
use nonecorn.Binds.{Binding, binding_of, host_port, parse_bind, remove, rsplit}

abbrev pub lacks : ℕ → Text → Bool
lacks c s = all (λ d. not (d == c)) s

rsplit-lacks : (sep : ℕ) (s : Text) → lacks sep s ≡ true → rsplit sep s ≡ none
unfolding rsplit
rsplit-lacks sep [] h = refl
rsplit-lacks sep (c ∷ s) h = ground (arith, h, rsplit-lacks sep s)

rsplit_at :
    (sep : ℕ) (before after : Text)
    → lacks sep after ≡ true
    → rsplit sep (before ++ sep ∷ after) ≡ some (before, after)
unfolding rsplit
rsplit_at sep [] after h = ground (arith, rsplit-lacks sep after h)
rsplit_at sep (c ∷ before) after h = ground (arith, rsplit_at sep before after h)

remove-append : (c : ℕ) (s t : Text) → remove c (s ++ t) ≡ remove c s ++ remove c t
unfolding remove
remove-append c [] t = refl
remove-append c (d ∷ s) t = ground (arith, remove-append c s t)

remove-lacks : (c : ℕ) (s : Text) → lacks c s ≡ true → remove c s ≡ s
unfolding remove
remove-lacks c [] h = refl
remove-lacks c (d ∷ s) h = ground (arith, h, remove-lacks c s)

-- text without brackets
abbrev pub is_bare : Text → Bool
is_bare s = lacks b'[' s && lacks b']' s

abbrev unbracket : Text → Text
unbracket s = remove b']' (remove b'[' s)

unbracket-append : (s t : Text) → unbracket (s ++ t) ≡ unbracket s ++ unbracket t
unbracket-append s t =
    ap (remove b']') (remove-append b'[' s t) ∙ remove-append b']' (remove b'[' s) (remove b'[' t)

unbracket-bare : (s : Text) → is_bare s ≡ true → unbracket s ≡ s
unbracket-bare s bare =
    ap (remove b']') (remove-lacks b'[' s (ground (arith, bare)))
    ∙ remove-lacks b']' s (ground (arith, bare))

unbracket-brackets :
    (s t : Text)
    → is_bare s ≡ true
    → is_bare t ≡ true
    → unbracket (codes "[" ++ (s ++ (codes "]:" ++ t))) ≡ s ++ (b':' ∷ t)
unfolding remove
unbracket-brackets s t hs ht =
    unbracket-append s (codes "]:" ++ t) ∙ ground (arith, unbracket-bare s hs, unbracket-bare t ht)

any-lacks : (s : Text) → lacks b':' s ≡ true → any (λ c. c == b':') s ≡ false
any-lacks [] h = refl
any-lacks (c ∷ s) h = ground (arith, h, any-lacks s)

unbracket-colon :
    (s t : Text)
    → is_bare s ≡ true
    → is_bare t ≡ true
    → unbracket (s ++ (b':' ∷ t)) ≡ s ++ (b':' ∷ t)
unfolding remove
unbracket-colon s t hs ht =
    unbracket-append s (b':' ∷ t) ∙ ground (arith, unbracket-bare s hs, unbracket-bare t ht)

unbracket-portless :
    (s t : Text)
    → is_bare s ≡ true
    → is_bare t ≡ true
    → unbracket (codes "[" ++ ((s ++ (b':' ∷ t)) ++ codes "]")) ≡ s ++ (b':' ∷ t)
unfolding remove
unbracket-portless s t hs ht =
    unbracket-append (s ++ (b':' ∷ t)) (codes "]")
    ∙ append-nil (unbracket (s ++ (b':' ∷ t)))
    ∙ unbracket-colon s t hs ht

module _ (int : Text → Option ℕ) (default : ℕ) where
  host_port-at :
      (host port : Text) (number : ℕ)
      → lacks b':' port ≡ true
      → int port ≡ some number
      → host_port int default (host ++ (b':' ∷ port)) ≡ (host, number)
  unfolding host_port
  host_port-at host port number h e = ground (arith, rsplit_at b':' host port h, e)

  binding-at :
      (text host port : Text) (number : ℕ)
      → unbracket text ≡ host ++ (b':' ∷ port)
      → lacks b':' port ≡ true
      → int port ≡ some number
      → binding_of int default (host_port int default (unbracket text)) ≡ (
          if any (λ c. c == b':') host then Binding.inet6 host number else Binding.inet host number)
  binding-at text host port number e h reads =
      ap (λ s. binding_of int default (host_port int default s)) e
      ∙ ap (binding_of int default) (host_port-at host port number h reads)

  -- The text of a socket's address, as `repr_socket_addr` writes it, is a bind for that address: its
  -- host and port are read back from it, of an IPv4 address and of an IPv6 address. The port is
  -- written in text that `int` reads and that has no colon and no bracket, no host has brackets, an
  -- IPv4 host has no colon and its text none of the prefixes "unix:" and "fd://", and an IPv6 host
  -- has a colon.
  pub parse_bind-repr_socket_addr :
      (show : ℕ → Text) (port : ℕ) (host4 host6 : Text)
      → int (show port) ≡ some port
      → (is_bare (show port) && lacks b':' (show port)) ≡ true
      → (is_bare host4 && lacks b':' host4) ≡ true
      → (starts_with (codes "unix:") (repr_socket_addr show (SocketAddress.inet host4 port))
          || starts_with (codes "fd://") (repr_socket_addr show (SocketAddress.inet host4 port)))
        ≡ false
      → is_bare host6 ≡ true
      → any (λ c. c == b':') host6 ≡ true
      → (parse_bind int default (repr_socket_addr show (SocketAddress.inet host4 port))
          ≡ ok (Binding.inet host4 port))
        × (parse_bind int default (repr_socket_addr show (SocketAddress.inet6 host6 port))
            ≡ ok (Binding.inet6 host6 port))
  unfolding parse_bind repr_socket_addr starts_with
  parse_bind-repr_socket_addr show port host4 host6 reads p h4 prefixes h6 colon = (
    ground (
      arith,
      prefixes,
      any-lacks host4,
      h4,
      binding-at (host4 ++ (b':' ∷ show port)) host4 (show port) port
          (unbracket-colon host4 (show port) (ground (arith, h4)) (ground (arith, p)))
          (ground (arith, p)) reads,
    ),
    ground (
      arith,
      colon,
      binding-at (codes "[" ++ (host6 ++ (codes "]:" ++ show port))) host6 (show port) port
          (unbracket-brackets host6 (show port) h6 (ground (arith, p))) (ground (arith, p)) reads,
    ),
  )

  -- A bracketed IPv6 host without a port, whose last group is a number to `int`, loses that group: it
  -- is taken for the port, and the host is what stands before it.
  pub parse_bind-portless :
      (front group : Text) (number : ℕ)
      → is_bare front ≡ true
      → (is_bare group && lacks b':' group) ≡ true
      → int group ≡ some number
      → any (λ c. c == b':') front ≡ true
      → parse_bind int default (codes "[" ++ ((front ++ (b':' ∷ group)) ++ codes "]"))
        ≡ ok (Binding.inet6 front number)
  unfolding parse_bind starts_with
  parse_bind-portless front group number hf hg reads colon = ground (
    arith,
    colon,
    binding-at (codes "[" ++ ((front ++ (b':' ∷ group)) ++ codes "]")) front group number
        (unbracket-portless front group hf (ground (arith, hg))) (ground (arith, hg)) reads,
  )
