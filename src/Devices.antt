-- ===== src/Devices.antt =====
-- The list of signed-in devices: what web/src/features/settings/ActiveSessions.tsx says of each, and
-- which of them "sign out the others" is offered for. Times are in milliseconds.
pub mod Laws
use konku.Common.{
  ℕ, ◌-◌, ◌/◌, Bool, true, false, ◌||◌, Text, codes, Option, none, some, List, [], ◌∷◌, ◌++◌,
  length, take, filter, not, starts_with, truthy, ltb, ◌==◌, if◌then◌else◌,
}

pub record Session : Type 0 where
  pub user_agent : Option Text
  pub last_seen : Option ℕ
  pub current : Bool

unfoldable pub others : List Session → List Session
others sessions = filter (λ s. not s.current) sessions

-- `/part/.test(text)` for a pattern that is a literal.
unfoldable pub mentions : Text → Text → Bool
mentions part [] = starts_with part []
mentions part (c ∷ t) = let rest = mentions part t in starts_with part (c ∷ t) || rest

unfoldable pub browser_of : Text → Option Text
browser_of agent =
    if mentions (codes "Edg/") agent
    then some (codes "Edge")
    else if mentions (codes "OPR/") agent || mentions (codes "Opera") agent
    then some (codes "Opera")
    else if mentions (codes "Firefox/") agent
    then some (codes "Firefox")
    else if mentions (codes "Chrome/") agent
    then some (codes "Chrome")
    else if mentions (codes "Safari/") agent
    then some (codes "Safari")
    else none

unfoldable pub platform_of : Text → Option Text
platform_of agent =
    if mentions (codes "iPhone") agent
      || (mentions (codes "iPad") agent || mentions (codes "iPod") agent)
    then some (codes "iOS")
    else if mentions (codes "Android") agent
    then some (codes "Android")
    else if mentions (codes "Mac OS X") agent || mentions (codes "Macintosh") agent
    then some (codes "macOS")
    else if mentions (codes "Windows") agent
    then some (codes "Windows")
    else if mentions (codes "Linux") agent
    then some (codes "Linux")
    else none

-- The raw string of an agent that nothing is recognised of, cut.
unfoldable pub raw_agent : Text → Text
raw_agent agent = if ltb 40 (length agent) then take 40 agent ++ codes "…" else agent

-- The catalog's two sentences are arguments.
module _ (unknown_device : Text) (client_on : Text → Text → Text) where
  abbrev pub named : Option Text → Option Text → Text → Text
  named (some browser) (some platform) agent = client_on browser platform
  named (some browser) none agent = browser
  named none (some platform) agent = platform
  named none none agent = raw_agent agent

  abbrev pub described : Text → Text
  described [] = unknown_device
  described (c ∷ agent) = named (browser_of (c ∷ agent)) (platform_of (c ∷ agent)) (c ∷ agent)

  unfoldable pub describe_client : Option Text → Text
  describe_client none = unknown_device
  describe_client (some agent) = described agent

-- The phrase of the catalog, with its number.
pub data Ago : Type 0 where
  just_now : Ago
  minutes hours days : ℕ → Ago
  yesterday over_a_month : Ago

unfoldable pub ago_of_days : ℕ → Ago
ago_of_days d = if d == 1 then yesterday else if ltb d 30 then days d else over_a_month

unfoldable pub ago_of_hours : ℕ → Ago
ago_of_hours h = if ltb h 24 then hours h else ago_of_days (h / 24)

unfoldable pub ago_of_minutes : ℕ → Ago
ago_of_minutes m =
    if ltb m 10 then just_now else if ltb m 60 then minutes m else ago_of_hours (m / 60)

-- A time that cannot be read is `none`; one in the future has negative minutes in the source, which
-- are below ten as no minutes are.
unfoldable pub relative_time : Option ℕ → ℕ → Ago
relative_time none now = just_now
relative_time (some seen) now = ago_of_minutes ((now - seen) / 60000)
