-- ===== src/NetSession/Groups.antt =====
-- The peer groups of `cNetSession`: which peers a message to a group reaches, and the queues in which
-- messages wait for the next `UpdateSend`.
--
-- Groups are looked up by their number, which is negative for the broadcast and team groups and the
-- peer's own number for the group that a peer has for itself. Peer numbers are never negative: every
-- caller passes an index or a `uint8`.
pub mod Order
pub mod Members
pub mod Effects
pub mod Create
pub mod Force
pub mod Send
pub mod Delivery
pub mod Fifo
use gta_psp_multiplayer.Prelude.{
  ℕ, ◌+◌, Bool, true, false, ◌||◌, Option, none, some, List, [], ◌∷◌, ◌++◌, ltb, ◌==◌,
  if◌then◌else◌,
}
use gta_psp_multiplayer.Prelude.Int.{ℤ, pos, negsuc}

-- `cSendQeue`.
pub record SendQueue : Type 0 where
  pub id : ℤ
  pub is_used : ℕ
  pub force_queue_id : ℤ
  pub packet_buffer : List ℕ
  pub packet_buffer_prio : List ℕ
  pub peer_list : List ℕ

-- BROADCAST_PEER_GROUPID and the teams' groups
abbrev pub broadcast : ℤ
broadcast = negsuc 0

abbrev pub team_a : ℤ
team_a = negsuc 1

abbrev pub team_b : ℤ
team_b = negsuc 2

-- `==` of two `int32`.
unfoldable pub same : ℤ → ℤ → Bool
same (pos a) (pos b) = a == b
same (negsuc a) (negsuc b) = a == b
same _ _ = false

abbrev pub Queues : Type 0
Queues = List SendQueue

-- `GetPeerQueue`: the first queue of that number, or nil.
unfoldable pub get_peer_queue : ℤ → Queues → Option SendQueue
get_peer_queue g [] = none
get_peer_queue g (q ∷ qs) = if same q.id g then some q else get_peer_queue g qs

unfoldable pub has_peer_queue : ℤ → Queues → Bool
has_peer_queue g [] = false
has_peer_queue g (q ∷ qs) = if same q.id g then true else has_peer_queue g qs

-- A change made through the pointer that `GetPeerQueue` returns.
unfoldable pub at_queue : ℤ → (SendQueue → SendQueue) → Queues → Queues
at_queue g f [] = []
at_queue g f (q ∷ qs) = if same q.id g then f q ∷ qs else q ∷ at_queue g f qs

-- `std::find` on a group's peers.
unfoldable pub contains : ℕ → List ℕ → Bool
contains p [] = false
contains p (x ∷ xs) = if x == p then true else contains p xs

-- The insertion at `std::lower_bound`, if the peer does not stand there yet. `lower_bound` stops at
-- the first element that is not less, since a group's peers are kept in order (`Order`).
unfoldable pub insert_peer : ℕ → List ℕ → List ℕ
insert_peer p [] = p ∷ []
insert_peer p (x ∷ xs) =
    if ltb x p then x ∷ insert_peer p xs else if x == p then x ∷ xs else p ∷ x ∷ xs

-- The run of elements equal to the peer, which is erased.
unfoldable pub skip_run : ℕ → List ℕ → List ℕ
skip_run p [] = []
skip_run p (x ∷ xs) = if x == p then skip_run p xs else x ∷ xs

unfoldable pub erase_peer : ℕ → List ℕ → List ℕ
unfolding skip_run
erase_peer p [] = []
erase_peer p (x ∷ xs) = if ltb x p then x ∷ erase_peer p xs else skip_run p (x ∷ xs)

-- The inner loops of `UpdatePeerGroups`: sizes first, then element by element.
unfoldable pub equal_lists : List ℕ → List ℕ → Bool
equal_lists [] [] = true
equal_lists [] (y ∷ ys) = false
equal_lists (x ∷ xs) [] = false
equal_lists (x ∷ xs) (y ∷ ys) = if x == y then equal_lists xs ys else false

-- The first queue before `a` with the same peers, by its index `b`; otherwise BROADCAST_PEER_GROUPID.
unfoldable pub search_equal : List ℕ → ℕ → List (List ℕ) → ℤ
search_equal peers b [] = broadcast
search_equal peers b (xs ∷ rest) =
    if equal_lists peers xs then pos b else search_equal peers (b + 1) rest

-- The outer loop, over the queues from `a` on; `before` are the peers of those before `a`.
unfoldable pub update_from : List (List ℕ) → Queues → Queues
update_from before [] = []
update_from before (q ∷ qs) =
    record q { force_queue_id = search_equal q.peer_list 0 before }
    ∷ update_from (before ++ q.peer_list ∷ []) qs

-- `UpdatePeerGroups`.
unfoldable pub update_peer_groups : Queues → Queues
update_peer_groups qs = update_from [] qs

-- `cSendQeue()` with `m_bIsUsed` set.
abbrev pub fresh_queue : ℤ → SendQueue
fresh_queue g = record {
  id = g;
  is_used = 1;
  force_queue_id = broadcast;
  packet_buffer = [];
  packet_buffer_prio = [];
  peer_list = [];
}

-- The assignment to `m_nID` of the last queue.
unfoldable pub name_last : ℤ → Queues → Queues
name_last g [] = []
name_last g (q ∷ []) = record q { id = g } ∷ []
name_last g (q ∷ (r ∷ qs)) = q ∷ name_last g (r ∷ qs)

-- `CreatePeerGroup`: the number is given only after the update, to the queue made before it.
unfoldable pub create_peer_group : ℤ → Queues → Queues
create_peer_group g qs = name_last g (update_peer_groups (qs ++ fresh_queue (pos 0) ∷ []))

-- `RegisterGroupPeer`. `none` is the use of the nil pointer that `GetPeerQueue` returns for an unknown
-- group.
unfoldable pub register_group_peer : ℤ → ℕ → Queues → Option Queues
register_group_peer g p qs =
    if has_peer_queue g qs
    then some (
        update_peer_groups
          (at_queue g (λ q. record q { peer_list = insert_peer p q.peer_list }) qs))
    else none

-- Whether the queue found for a group lists the peer.
unfoldable pub listed : ℤ → ℕ → Queues → Bool
listed g p qs = elim (get_peer_queue g qs) [ none ↦ false | some q ↦ contains p q.peer_list ]

-- `IsSameGroup`.
unfoldable pub is_same_group : ℤ → ℕ → Queues → Bool
is_same_group g p qs =
    if same g (pos p) || same g broadcast
    then true
    else if has_peer_queue g qs
    then listed g p qs
    else false

-- `RemovePeerFromGroup`, with `none` as above.
unfoldable pub remove_peer_from_group : ℤ → ℕ → Queues → Option Queues
remove_peer_from_group g p qs =
    if is_same_group g p qs
    then if has_peer_queue g qs
      then some (
          update_peer_groups
            (at_queue g (λ q. record q { peer_list = erase_peer p q.peer_list }) qs))
      else none
    else some qs

-- The loop of `DeletePeer` over the numbers of the queues.
unfoldable pub delete_from : ℕ → List ℤ → Queues → Option Queues
delete_from p [] qs = some qs
delete_from p (g ∷ gs) qs = elim (remove_peer_from_group g p qs) [
  | none ↦ none
  | some rs ↦ delete_from p gs rs
]

abbrev pub ids : Queues → List ℤ
ids [] = []
ids (q ∷ qs) = q.id ∷ ids qs

-- `DeletePeer`.
unfoldable pub delete_peer : ℕ → Queues → Option Queues
unfolding delete_from
delete_peer p qs = delete_from p (ids qs) qs
