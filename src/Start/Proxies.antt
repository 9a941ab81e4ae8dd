-- ===== src/Start/Proxies.antt =====
-- The list of trusted proxies.
use iot_ephemeral_value_stor.Base.{
  ◌≡◌, refl, ◌≢◌, Option, none, some, List, [], ◌∷◌, ◌++◌, Text, codes, split, split_lacking,
  split-append_sep, LacksByte, All, contains, has_prefix, true, false, Bool, Bool-cases,
  if◌then◌else◌, inl, inr, arith,
}
use iot_ephemeral_value_stor.Middleware.{Net}
use iot_ephemeral_value_stor.Start.{
  Addresses, cidr_of, add_network, trusted_network, trusted_networks, parse_trusted_proxies,
}

-- Entries with a comma between each two.
abbrev pub join_commas : Text → List Text → Text
join_commas entry [] = entry
join_commas entry (next ∷ entries) = entry ++ b',' ∷ join_commas next entries

split-join_commas :
    (entry : Text) (entries : List Text)
    → All (LacksByte b',') (entry ∷ entries)
    → split b',' (join_commas entry entries) ≡ entry ∷ entries
split-join_commas entry [] h = split_lacking b',' entry h.0
split-join_commas entry (next ∷ entries) h =
    rw
      (
        split-append_sep b',' entry (join_commas next entries),
        split_lacking b',' entry h.0,
        split-join_commas next entries h.1,
      )
      refl

contains-slash : (t : Text) → contains t (codes "/") ≡ true → LacksByte b'/' t → ⊥
unfolding contains has_prefix
contains-slash [] e h = ground arith
contains-slash (c ∷ t) e h = ground (arith, contains-slash t)

LacksByte-slash : (t : Text) → contains t (codes "/") ≡ false → LacksByte b'/' t
unfolding contains has_prefix
LacksByte-slash [] e = tt
LacksByte-slash (c ∷ t) e = (ground arith, LacksByte-slash t (ground arith))

module _ (net : Net) (addresses : Addresses net) where
  -- What an entry without the space around it stands for, if it is not to be skipped: a network, or
  -- an address, which is a network of its own.
  pub data Means (entry : Text) : Option (net.Network) → Type 0 where
    nothing : entry ≡ [] → Means entry none
    network : (LacksByte b'/' entry → ⊥) → Means entry (addresses.parse_cidr entry)
    v4_address :
        (ip : net.Ip)
        → LacksByte b'/' entry
        → net.parse_ip entry ≡ some ip
        → addresses.is_v4 ip ≡ true
        → Means entry (addresses.parse_cidr (entry ++ codes "/32"))
    v6_address :
        (ip : net.Ip)
        → LacksByte b'/' entry
        → net.parse_ip entry ≡ some ip
        → addresses.is_v4 ip ≡ false
        → Means entry (addresses.parse_cidr (entry ++ codes "/128"))
    invalid : entry ≢ [] → LacksByte b'/' entry → net.parse_ip entry ≡ none → Means entry none

  -- The networks of the entries, in order, where those that stand for none are skipped.
  pub data AreListed : List Text → List (net.Network) → Type 0 where
    done : AreListed [] []
    skips :
        (entry : Text) {entries : List Text} {networks : List (net.Network)}
        → Means (net.trim_space entry) none
        → AreListed entries networks
        → AreListed (entry ∷ entries) networks
    keeps :
        (entry : Text) (n : net.Network) {entries : List Text} {networks : List (net.Network)}
        → Means (net.trim_space entry) (some n)
        → AreListed entries networks
        → AreListed (entry ∷ entries) (n ∷ networks)

  cidr_of-Means :
      (entry : Text) (o : Option (net.Ip))
      → entry ≢ []
      → LacksByte b'/' entry
      → net.parse_ip entry ≡ o
      → Means entry (cidr_of net addresses entry o)
  cidr_of-Means entry none some_text lacks parsed = invalid some_text lacks parsed
  cidr_of-Means entry (some ip) some_text lacks parsed = by_version (addresses.is_v4 ip) refl
    where
      by_version :
          (b : Bool)
          → addresses.is_v4 ip ≡ b
          → Means entry (addresses.parse_cidr (entry ++ (if b then codes "/32" else codes "/128")))
      by_version true e = v4_address ip lacks parsed e
      by_version false e = v6_address ip lacks parsed e

  trusted_network-Means : (entry : Text) → Means entry (trusted_network net addresses entry)
  trusted_network-Means [] = nothing refl
  trusted_network-Means (x ∷ t) = elim (Bool-cases (contains (x ∷ t) (codes "/"))) [
    | inl e ↦ rw e (network (contains-slash (x ∷ t) e))
    | inr e ↦ rw e (
        cidr_of-Means (x ∷ t) (net.parse_ip (x ∷ t)) (λ h. ground arith) (LacksByte-slash (x ∷ t) e)
          refl)
  ]

  add_network-AreListed :
      (entry : Text) (entries : List Text) (networks : List (net.Network))
      (o : Option (net.Network))
      → Means (net.trim_space entry) o
      → AreListed entries networks
      → AreListed (entry ∷ entries) (add_network net addresses o networks)
  add_network-AreListed entry entries networks none m rest = skips entry m rest
  add_network-AreListed entry entries networks (some n) m rest = keeps entry n m rest

  trusted_networks-AreListed :
      (entries : List Text) → AreListed entries (trusted_networks net addresses entries)
  unfolding trusted_networks
  trusted_networks-AreListed [] = done
  trusted_networks-AreListed (entry ∷ entries) =
      add_network-AreListed entry entries (trusted_networks net addresses entries) _
        (trusted_network-Means (net.trim_space entry)) (trusted_networks-AreListed entries)

  -- The test for the empty text changes nothing.
  parse_trusted_proxies-eq :
      (raw : Text)
      → parse_trusted_proxies net addresses raw ≡ trusted_networks net addresses (split b',' raw)
  unfolding parse_trusted_proxies trusted_networks split
  parse_trusted_proxies-eq [] = rw addresses.trim_space-nil refl
  parse_trusted_proxies-eq (c ∷ raw) = refl

  -- The proxies of a list of entries with commas between them are, in the order of the entries, what
  -- each stands for when the space around it is gone: one with a slash the network that it parses
  -- as, and another the network of 32 or 128 bits of the address that it parses as. An entry that is
  -- empty or does not parse is skipped, and all others are kept.
  pub parse_trusted_proxies-AreListed :
      (entry : Text) (entries : List Text)
      → All (LacksByte b',') (entry ∷ entries)
      → AreListed
          (entry ∷ entries)
          (parse_trusted_proxies net addresses (join_commas entry entries))
  parse_trusted_proxies-AreListed entry entries h =
      rw (parse_trusted_proxies-eq (join_commas entry entries), split-join_commas entry entries h)
        (trusted_networks-AreListed (entry ∷ entries))
