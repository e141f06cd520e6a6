-- ===== src/ClientIp.antt =====
-- server/internal/iputil/iputil.go: the address of a client behind trusted proxies.
--
-- The packages net and strings are parameters: `parse` is net.ParseIP, `split_host` the host of
-- net.SplitHostPort, `contains_ip` the test of a network, and `trim` is strings.TrimSpace. A request is its
-- remote address and two headers, where an empty one is missing.
pub mod Walk
pub mod Safe
mod Tests
use pro_labs.Common.{
  ℕ, zero, suc, Bool, true, false, Option, none, some, List, [], ◌∷◌, ◌||◌, ◌==◌, length,
  if◌then◌else◌, Text,
}

pub record HttpRequest : Type 0 where
  pub remote_addr : Text
  pub x_forwarded_for : Text
  pub x_real_ip : Text

-- strings.LastIndexByte of a comma, and the texts before and behind it.
abbrev pub with_first : ℕ → Text × Text → Text × Text
with_first c (before, after) = (c ∷ before, after)

abbrev pub or_here : ℕ → Text → Option (Text × Text) → Option (Text × Text)
or_here c text (some cut) = some (with_first c cut)
or_here c text none = if c == 44 then some ([], text) else none

unfoldable pub last_comma : Text → Option (Text × Text)
last_comma [] = none
last_comma (c ∷ text) = or_here c text (last_comma text)

-- The last entry, and what is left of it.
abbrev pub last_entry : Text → Option (Text × Text) → Text × Text
last_entry xff none = (xff, [])
last_entry xff (some (before, after)) = (after, before)

module _ {Ip Net : Type 0} (parse : Text → Option Ip) (split_host : Text → Option Text)
    (contains_ip : Net → Ip → Bool) (trim : Text → Text) where
  abbrev pub in_nets : Ip → List Net → Bool
  in_nets ip [] = false
  in_nets ip (n ∷ nets) = contains_ip n ip || in_nets ip nets

  abbrev pub is_trusted : Option Ip → List Net → Bool
  is_trusted none nets = false
  is_trusted (some ip) nets = in_nets ip nets

  -- One entry: the host if it is malformed, itself if it is not trusted, else what the rest gives.
  abbrev pub entry_or : Text → List Net → Text → Text → Option Ip → Text
  entry_or host nets entry rest none = host
  entry_or host nets entry rest (some ip) = if is_trusted (some ip) nets then rest else entry

  -- The loop from right to left; `fuel` is the length of the header.
  unfoldable pub walk : ℕ → Text → List Net → Text → Text
  walk fuel host nets [] = host
  walk zero host nets (c ∷ xff) = host
  walk (suc fuel) host nets (c ∷ xff) =
      let cut = last_entry (c ∷ xff) (last_comma (c ∷ xff)) in
      let entry = trim cut.0 in entry_or host nets entry (walk fuel host nets cut.1) (parse entry)

  abbrev pub host_of : Text → Option Text → Text
  host_of remote none = remote
  host_of remote (some host) = host

  abbrev pub from_headers : Text → List Net → Text → Text → Text
  from_headers host nets [] [] = host
  from_headers host nets [] (c ∷ xri) = trim (c ∷ xri)
  from_headers host nets (c ∷ xff) xri = walk (length (c ∷ xff)) host nets (c ∷ xff)

  unfoldable pub extract_client_ip : HttpRequest → List Net → Text
  extract_client_ip r nets =
      let host = host_of r.remote_addr (split_host r.remote_addr) in
      if is_trusted (parse host) nets
      then from_headers host nets r.x_forwarded_for r.x_real_ip
      else host
