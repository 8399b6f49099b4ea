-- ===== src/Zone/Split.antt =====
-- The packets of a state (the second half of `cInterestZone::SendGameState` of C Reversed/InterestZone.cpp):
-- what is written of each element, the removals, and where one packet ends and the next begins.
pub mod Whole
pub mod Removals
use gta_psp_multiplayer.Prelude.{
  ℕ, ◌+◌, ◌*◌, ◌%◌, ◌^◌, bit_and, bit_or, Bool, true, false, not, ◌&&◌, List, [], ◌∷◌, ◌++◌, length,
  ltb, ◌==◌, if◌then◌else◌,
}
use gta_psp_multiplayer.Prelude.Int.{ℤ, pos, negsuc, ltb_ℤ}
use gta_psp_multiplayer.Sync.Types.{to_signed, to_unsigned}
use gta_psp_multiplayer.Sync.Codec.{le_bytes}
use gta_psp_multiplayer.NetSession.Groups.{same}
use gta_psp_multiplayer.Elements.History.{minus_16, before}
use gta_psp_multiplayer.Zone.{ElementEntry, Zone, is_empty}
use gta_psp_multiplayer.Zone.Basis.{final_flag}
use gta_psp_multiplayer.Zone.Receive.{seq_flag}

-- MP_PACKET_SPLIT_SIZE, MP_FULL_SYNC_SEND_INTERVAL and the flags of an entity.
abbrev pub split_size : ℕ
split_size = 1024

abbrev pub full_sync_send_interval : ℕ
full_sync_send_interval = 2000

abbrev pub create_flag : ℕ
create_flag = 0x8000

abbrev pub create_mask : ℕ
create_mask = 0x7fff

abbrev pub destroy_type : ℕ
destroy_type = 0xff

abbrev pub transfer_flag : ℕ
transfer_flag = 0x80

-- What sending reads and writes of an `sElement`; `front_time` is the time of its oldest state.
pub record ZoneElement : Type 0 where
  pub element_id : ℕ
  pub element_type : ℕ
  pub prev_owner : ℤ
  pub prev_id : ℤ
  pub front_time : ℕ
  pub last_sent_frame : ℕ
  pub was_transfered : Bool

-- `sendInterval`
abbrev pub send_interval : ZoneElement → ℕ
send_interval e =
    if e.element_type == 7
    then full_sync_send_interval + bit_and e.element_id 0x3f * 2 ^ 6
    else full_sync_send_interval * 2

-- Whether an element is sent as a difference.
unfoldable pub is_delta : ℕ → ℕ → ZoneElement → Bool
is_delta now basis e =
    before basis now
    && not (before basis e.front_time)
    && ltb_ℤ (to_signed 16 (minus_16 now e.last_sent_frame)) (pos (send_interval e))

-- The head of an element that is sent in full; a type is one of at most fourteen.
unfoldable pub full_head : ZoneElement → List ℕ
full_head e =
    le_bytes 2 (bit_or e.element_id create_flag)
    ++ (if same e.prev_owner (negsuc 0)
        then e.element_type % 2 ^ 8 ∷ []
        else bit_or (e.element_type % 2 ^ 8) transfer_flag
          ∷ to_unsigned 8 e.prev_owner
          ∷ le_bytes 2 (to_unsigned 16 e.prev_id))

-- What is written of an element, and the element afterwards.
pub record Written : Type 0 where
  pub wrote : Bool
  pub bytes : List ℕ
  pub element : ZoneElement

-- `WriteSyncToStream` is virtual: whether it wrote, and its bytes, from the time and the basis.
module _ (write_sync : ZoneElement → ℕ → ℕ → Bool × List ℕ) where
  -- What is left in the packet of an element that nothing is written of is nothing.
  unfoldable pub write_element : ℕ → ℕ → ZoneElement → Written
  unfolding is_delta full_head
  write_element now basis e =
      let (wrote, sync) = write_sync e now basis in
      let (full, state) = write_sync e now (minus_16 e.front_time 1) in
      if is_delta now basis e
      then record {
        wrote = wrote;
        bytes = if wrote then le_bytes 2 (bit_and e.element_id create_mask) ++ sync else [];
        element = record e {
          prev_owner = negsuc 0;
          last_sent_frame = if wrote then now else e.last_sent_frame;
        };
      }
      else record {
        wrote = full;
        bytes = if full then full_head e ++ state else [];
        element = record e { last_sent_frame = now };
      }

  -- The loop over the elements: the bytes of each that is not left out.
  unfoldable pub chunks_of : ℕ → ℕ → Bool → List ZoneElement → List (List ℕ)
  unfolding write_element
  chunks_of now basis no_peers [] = []
  chunks_of now basis no_peers (e ∷ es) =
      let rest = chunks_of now basis no_peers es in
      if no_peers
      then rest
      else if e.was_transfered
      then rest
      else (write_element now basis e).bytes ∷ rest

  -- The elements afterwards.
  unfoldable pub elements_after : ℕ → ℕ → Bool → List ZoneElement → List ZoneElement
  unfolding write_element
  elements_after now basis no_peers [] = []
  elements_after now basis no_peers (e ∷ es) =
      let rest = elements_after now basis no_peers es in
      if no_peers
      then e ∷ rest
      else if e.was_transfered
      then e ∷ rest
      else (write_element now basis e).element ∷ rest

-- The words on the removed elements.
unfoldable pub removal_bytes : List ElementEntry → List ℕ
removal_bytes [] = []
removal_bytes (r ∷ rs) =
    le_bytes 2 (bit_or (bit_and (r.entity_id % 2 ^ 16) create_mask) create_flag)
    ++ destroy_type ∷ removal_bytes rs

-- What becomes of them: said twice at the least, and until the basis is after the second time; on the own
-- zone, `is_own`, twice.
unfoldable pub keep_removals : ℕ → ℕ → Bool → List ElementEntry → List ElementEntry
keep_removals now basis is_own [] = []
keep_removals now basis is_own (r ∷ rs) =
    let rest = keep_removals now basis is_own rs in
    if ltb r.entity_id final_flag
    then record { entry_basis = now; entity_id = r.entity_id + final_flag } ∷ rest
    else if before basis now && before r.entry_basis basis
    then rest
    else if is_own
    then rest
    else r ∷ rest

unfoldable pub settle_removals : ℕ → Bool → Zone → Zone
unfolding keep_removals
settle_removals now is_own z = record z {
  entities = if is_empty z.peers then [] else keep_removals now z.basis is_own z.entities;
}

-- A packet of a state: its `sequence`, and what follows the basis.
pub record StatePacket : Type 0 where
  pub sequence : ℕ
  pub payload : List ℕ

-- The packets, from the one being filled on; `head` is the size of what stands in front of a payload. An
-- element that makes a packet too large starts the next one.
unfoldable pub split_chunks : ℕ → ℕ → List ℕ → List (List ℕ) → List ℕ → List StatePacket
split_chunks head seq payload [] removals =
    record { sequence = bit_or seq seq_flag; payload = payload ++ removals } ∷ []
split_chunks head seq payload (c ∷ cs) removals =
    elim (ltb split_size (head + length (payload ++ c))) [
      | true ↦
          record { sequence = seq; payload = payload }
          ∷ split_chunks head ((seq + 1) % 2 ^ 8) c cs removals
      | false ↦ split_chunks head seq (payload ++ c) cs removals
    ]
