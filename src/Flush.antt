-- ===== src/Flush.antt =====
-- What an editor sends when the tab is hidden or closed: web/src/lib/useFlushOnHide.ts. A body is
-- the text that `JSON.stringify` makes of it.
pub mod Laws
use konku.Common.{
  ℕ, suc, ◌+◌, ◌*◌, ◌&&◌, Bool, true, false, Text, codes, List, [], ◌∷◌, ◌++◌, Option, none, some,
  leb, ltb, str_eq, if◌then◌else◌,
}

pub data Method : Type 0 where
  post patch put : Method

pub record PendingWrite : Type 0 where
  pub path : Text
  pub method : Method
  pub body : Text

abbrev pub keepalive_limit : ℕ
keepalive_limit = 60 * 1024

abbrev pub method_name : Method → Text
method_name post = codes "POST"
method_name patch = codes "PATCH"
method_name put = codes "PUT"

-- `new TextEncoder().encode(s).length`: a surrogate pair is four bytes, a lone surrogate three.
unfoldable pub encoded_length : Text → ℕ
encoded_length [] = 0
encoded_length (c ∷ []) = if ltb c 0x80 then 1 else if ltb c 0x800 then 2 else 3
encoded_length (c ∷ d ∷ s) =
    let alone = (if ltb c 0x80 then 1 else if ltb c 0x800 then 2 else 3) + encoded_length (d ∷ s) in
    let pair = 4 + encoded_length s in
    if leb 0xd800 c && leb c 0xdbff && (leb 0xdc00 d && leb d 0xdfff) then pair else alone

-- What leaves the page: a call of the caller's `onHidden`, or a request.
pub data Sent : Type 0 where
  saved : Sent
  fetched : PendingWrite → Bool → Sent

-- The `sent` of the effect, and what has left.
pub record Flush : Type 0 where
  pub last : Option Text
  pub out : List Sent

unfoldable pub payload : PendingWrite → Text
payload w = method_name w.method ++ 32 ∷ (w.path ++ 32 ∷ w.body)

unfoldable pub send : PendingWrite → Sent
unfolding encoded_length
send w = fetched w (leb (encoded_length w.body) keepalive_limit)

is_last : Text → Option Text → Bool
is_last p none = false
is_last p (some q) = str_eq p q

-- `flush`, with what `pending` answers now.
unfoldable pub flush : Option PendingWrite → Flush → Flush
unfolding is_last
flush none s = s
flush (some w) s =
    if is_last (payload w) s.last
    then s
    else record s { last = some (payload w); out = s.out ++ send w ∷ [] }

-- `visibilitychange` to hidden and to visible, and `pagehide`.
pub data PageEvent : Type 0 where
  hidden shown page_hide : PageEvent

-- `has_handler` is whether the caller gave `onHidden`.
unfoldable pub on_event : Bool → PageEvent → Option PendingWrite → Flush → Flush
on_event has_handler hidden pending s =
    if has_handler then record s { out = s.out ++ saved ∷ [] } else flush pending s
on_event has_handler shown pending s = record s { last = none }
on_event has_handler page_hide pending s = flush pending s

unfoldable pub on_events : Bool → List (PageEvent × Option PendingWrite) → Flush → Flush
on_events has_handler [] s = s
on_events has_handler ((e, pending) ∷ es) s =
    on_events has_handler es (on_event has_handler e pending s)
