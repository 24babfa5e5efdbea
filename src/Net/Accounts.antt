-- ===== src/Net/Accounts.antt =====
-- What the network models under KanchoNet/Network open and close, read off the log.
use kancho_net.Common.{ℕ, ◌+◌, ◌≡◌, List, [], ◌∷◌, ◌==◌, if◌then◌else◌}
use kancho_net.Types.{Socket}
use kancho_net.Net.{
  Action, opened, shut, closes, watches, rewatches, unwatches, delivers, starts_network,
  ends_network,
}

-- How often a descriptor has been opened, and how often closed.
unfoldable pub opens : Socket → List Action → ℕ
opens fd [] = 0
opens fd (opened j ∷ l) = (if j == fd then 1 else 0) + opens fd l
opens fd (shut j ∷ l) = opens fd l
opens fd (closes j ∷ l) = opens fd l
opens fd (watches j mask ∷ l) = opens fd l
opens fd (rewatches j mask ∷ l) = opens fd l
opens fd (unwatches j ∷ l) = opens fd l
opens fd (delivers j b ∷ l) = opens fd l
opens fd (starts_network ∷ l) = opens fd l
opens fd (ends_network ∷ l) = opens fd l

unfoldable pub closings : Socket → List Action → ℕ
closings fd [] = 0
closings fd (opened j ∷ l) = closings fd l
closings fd (shut j ∷ l) = closings fd l
closings fd (closes j ∷ l) = (if j == fd then 1 else 0) + closings fd l
closings fd (watches j mask ∷ l) = closings fd l
closings fd (rewatches j mask ∷ l) = closings fd l
closings fd (unwatches j ∷ l) = closings fd l
closings fd (delivers j b ∷ l) = closings fd l
closings fd (starts_network ∷ l) = closings fd l
closings fd (ends_network ∷ l) = closings fd l

-- Between two logs, whatever was opened was closed.
abbrev pub Balanced : List Action → List Action → Type 0
Balanced before after =
    (fd : Socket) → opens fd after + closings fd before ≡ opens fd before + closings fd after

-- How often Winsock has been started, and how often cleaned up.
unfoldable pub startups : List Action → ℕ
startups [] = 0
startups (starts_network ∷ l) = 1 + startups l
startups (opened j ∷ l) = startups l
startups (shut j ∷ l) = startups l
startups (closes j ∷ l) = startups l
startups (watches j mask ∷ l) = startups l
startups (rewatches j mask ∷ l) = startups l
startups (unwatches j ∷ l) = startups l
startups (delivers j b ∷ l) = startups l
startups (ends_network ∷ l) = startups l

unfoldable pub cleanups : List Action → ℕ
cleanups [] = 0
cleanups (ends_network ∷ l) = 1 + cleanups l
cleanups (opened j ∷ l) = cleanups l
cleanups (shut j ∷ l) = cleanups l
cleanups (closes j ∷ l) = cleanups l
cleanups (watches j mask ∷ l) = cleanups l
cleanups (rewatches j mask ∷ l) = cleanups l
cleanups (unwatches j ∷ l) = cleanups l
cleanups (delivers j b ∷ l) = cleanups l
cleanups (starts_network ∷ l) = cleanups l

abbrev pub Released : List Action → List Action → Type 0
Released before after = startups after + cleanups before ≡ startups before + cleanups after
