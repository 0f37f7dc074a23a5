-- ===== src/Hooks/Interfaces.antt =====
-- The choice of an interface in lwip_output_hooks/tcp_client/main/tcp_client_v6.c.
use Prim.Native.Nat.{bit_and}
use esp_network_examples.Prelude.{
  length-put_text, drop, put_text, put_text-fits, ℕ, ◌<◌, Bool, true, false, not, ◌||◌, List, [],
  ◌∷◌, ◌++◌, Option, none, some, ◌≡◌, inl, inr, refl, ◌∙◌, arith, Bool-cases, if◌then◌else◌, ◌==◌,
  leb, length, text_eq, c_string, c_string_lem, IsText, table, table_at,
}
use esp_network_examples.Os.{Io, Trace, ask, return, ◌>>=◌}
use esp_network_examples.Hooks.Calls.{Call, getifaddrs, freeifaddrs, IfAddr, Net, is_minus_one}

-- `ip6_addr_isglobal`, on the first byte of the address. The host is little-endian, so that
-- `htonl(0xe0000000)` is 0xe0, and `htonl(0xfe800000)` is 0x80fe.
abbrev pub ip6_addr_isglobal : ℕ → Bool
ip6_addr_isglobal b =
    not (bit_and (bit_and b 0xe0) 0x20 == 0)
    || (not (bit_and (bit_and b 0xff) 0xfc == 0) || not (bit_and (bit_and b 0xff) 0x80fe == 0))

-- What `get_src_iface` comes to: 0 with a name in the buffer, -1, or a name past the buffer's end.
pub data Interface : Type 0 where
  found : List ℕ → Interface
  unavailable overflow : Interface

abbrev pub free_and : Net → Interface → Io Call Interface
free_and net result = ask net.env freeifaddrs >>= λ _. return result

-- Behind `strcpy` of an entry's name.
abbrev pub if_copied : (List ℕ → Io Call Interface) → Option (List ℕ) → Io Call Interface
if_copied next none = return overflow
if_copied next (some buf) = next buf

-- An entry with an address of IPv6. The name that a user wants is `none` where none is configured.
unfoldable pub try_entry :
    Net → Option (List ℕ) → (List ℕ → Io Call Interface) → List ℕ → ℕ → List ℕ → Io Call Interface
try_entry net (some wanted) next name b buf =
    if text_eq wanted name
    then if_copied (λ buf'. free_and net (found buf')) (put_text buf name)
    else next buf
try_entry net none next name b buf =
    if_copied (λ buf'. if ip6_addr_isglobal b then free_and net (found buf') else next buf')
      (put_text buf name)

-- An entry, by the first byte of its address.
abbrev pub visit :
    Net
    → Option (List ℕ)
    → (List ℕ → Io Call Interface)
    → List ℕ
    → Option ℕ
    → List ℕ
    → Io Call Interface
visit net wanted next name none buf = next buf
visit net wanted next name (some b) buf = try_entry net wanted next name b buf

unfoldable pub scan : Net → Option (List ℕ) → List IfAddr → List ℕ → Io Call Interface
scan net wanted [] buf = free_and net unavailable
scan net wanted (e ∷ es) buf = visit net wanted (scan net wanted es) e.ifa_name e.first_byte buf

unfoldable pub get_src_iface : Net → Option (List ℕ) → List ℕ → Io Call Interface
get_src_iface net wanted buf = ask net.env getifaddrs >>= λ a.
    if is_minus_one a.ret then return unavailable else scan net wanted (net.ifaddrs a) buf

-- The kinds of address that a network interface has.
pub data AddressType : Type 0 where
  global unique_local link_local other_type : AddressType

abbrev pub is_source : AddressType → Bool
is_source other_type = false
is_source _ = true

abbrev any_source : List AddressType → Bool
any_source [] = false
any_source (a ∷ rest) = is_source a || any_source rest

-- The predicate for `esp_netif_find_if`, by the interface's name, which is `none` where it cannot be
-- had, and the types of its addresses.
unfoldable pub choose_netif : Option (List ℕ) → Option (List ℕ) → List AddressType → Bool
choose_netif wanted none addresses = false
choose_netif (some w) (some name) addresses = text_eq w name
choose_netif none (some name) addresses = any_source addresses

isglobal_table :
    table (λ b. if leb 2 b then ip6_addr_isglobal b else not (ip6_addr_isglobal b)) 256 ≡ true
unfolding table
isglobal_table = refl

-- The macro takes every byte from 2 on for that of a global address, since it tests with `&` where
-- an address is compared.
pub isglobal_bytes : (b : ℕ) → b < 256 → ip6_addr_isglobal b ≡ leb 2 b
isglobal_bytes b h =
    let e =
      table_at (λ b. if leb 2 b then ip6_addr_isglobal b else not (ip6_addr_isglobal b)) 256 b
        isglobal_table h in
    elim (Bool-cases (leb 2 b)) [
      | inl big ↦ rw big (rw big at e)
      | inr small ↦ rw small (not_true _ (rw small at e))
    ]
  where
    not_true : (b : Bool) → not b ≡ true → b ≡ false
    not_true true e = absurd (cc)
    not_true false e = refl

abbrev global_or : Option ℕ → List ℕ → Option (List ℕ) → Option (List ℕ)
global_or none name next = next
global_or (some b) name next = if ip6_addr_isglobal b then some name else next

-- The name of the first interface whose address is taken for a global one.
abbrev pub first_global : List IfAddr → Option (List ℕ)
first_global [] = none
first_global (e ∷ es) = global_or e.first_byte e.ifa_name (first_global es)

-- Every name is a text that fits in a buffer of `n` bytes.
abbrev pub NamesFit : ℕ → List IfAddr → Type 0
NamesFit n [] = Unit
NamesFit n (e ∷ es) = IsText e.ifa_name × (length e.ifa_name < n) × NamesFit n es

-- The result is this name, or there is none; the entries were freed, once and last.
abbrev pub Chooses : Net → Option (List ℕ) → Trace Call → Interface × Trace Call → Type 0
Chooses net (some name) t (found buf, u) =
    (c_string buf ≡ some name) × (u ≡ (freeifaddrs, net.env t freeifaddrs) ∷ t)
Chooses net none t (unavailable, u) = u ≡ (freeifaddrs, net.env t freeifaddrs) ∷ t
Chooses net _ t _ = ⊥

module _ (net : Net) (size : ℕ) where
  abbrev NextChooses : Option (List ℕ) → (List ℕ → Io Call Interface) → Type 0
  NextChooses o next =
      (buf : List ℕ) (t : Trace Call) → length buf ≡ size → Chooses net o t (next buf t)

  visit-Chooses :
      (next : List ℕ → Io Call Interface) (o : Option (List ℕ))
      → NextChooses o next
      → (name : List ℕ) (first : Option ℕ) → IsText name
      → length name < size
      → NextChooses (global_or first name o) (visit net none next name first)
  unfolding try_entry
  visit-Chooses next o keep name none text fits buf t e = keep buf t e
  visit-Chooses next o keep name (some b) text fits buf t e =
      let fits' : length name < length buf = omega arith in
      elim (Bool-cases (ip6_addr_isglobal b)) [
        | inl yes_global ↦
            rw (put_text-fits buf name fits', yes_global)
              ((c_string_lem name (drop (length (name ++ (0 ∷ []))) buf) text, refl))
        | inr not_global ↦
            rw (put_text-fits buf name fits', not_global)
              (keep (name ++ (0 ∷ drop (length (name ++ (0 ∷ []))) buf)) t
                (length-put_text buf name fits' ∙ e))
      ]

  scan-Chooses :
      (es : List IfAddr) → NamesFit size es → NextChooses (first_global es) (scan net none es)
  unfolding scan
  scan-Chooses [] fit buf t e = refl
  scan-Chooses (x ∷ es) (text, fits, fit) buf t e =
      visit-Chooses (scan net none es) (first_global es) (scan-Chooses es fit) x.ifa_name
        x.first_byte text fits buf t e

-- Where `getifaddrs` succeeds and every name fits in the buffer, the choice without a name that a
-- user wants is the first interface whose address is taken for a global one, or -1 if there is
-- none; and the entries are freed once.
pub get_src_iface-Chooses :
    (net : Net) (buf : List ℕ) (t : Trace Call)
    → is_minus_one (net.env t getifaddrs).ret ≡ false
    → NamesFit (length buf) (net.ifaddrs (net.env t getifaddrs))
    → Chooses net
        (first_global (net.ifaddrs (net.env t getifaddrs)))
        ((getifaddrs, net.env t getifaddrs) ∷ t)
        (get_src_iface net none buf t)
unfolding get_src_iface
get_src_iface-Chooses net buf t ok fit = rw ok (
    scan-Chooses net (length buf) (net.ifaddrs (net.env t getifaddrs)) fit buf
      ((getifaddrs, net.env t getifaddrs) ∷ t) refl)
