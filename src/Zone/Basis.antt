-- ===== src/Zone/Basis.antt =====
-- The frame that a state is sent against (the first half of `cInterestZone::SendGameState` of
-- C Reversed/InterestZone.cpp): chosen from what the peers have acknowledged, after which older
-- acknowledgments are forgotten.
pub mod Acked
use gta_psp_multiplayer.Prelude.{
  ℕ, ◌%◌, ◌^◌, Bool, ◌&&◌, List, [], ◌∷◌, map, length, ltb, if◌then◌else◌,
}
use gta_psp_multiplayer.Sync.Writer.{Writer, ◌>>◌, write_u8, write_u16}
use gta_psp_multiplayer.Elements.History.{minus_16}
use gta_psp_multiplayer.Zone.{ZonePeer, ElementEntry, Ack, Zone, is_empty, last_or}
use gta_psp_multiplayer.Zone.Common.{set_intersection}

-- MP_DISPOSE_SYNC_DELTA
abbrev pub dispose_sync_delta : ℕ
dispose_sync_delta = 30

-- MP_ENTITY_FINAL_FLAG
abbrev pub final_flag : ℕ
final_flag = 2 ^ 31

-- The loop over the other peers, which ends early when nothing is left.
unfoldable pub combine_frames : List ℕ → List ZonePeer → List ℕ
combine_frames fs [] = fs
combine_frames fs (p ∷ ps) =
    let c = set_intersection fs p.acks in
    let rest = combine_frames c ps in if is_empty c then c else rest

-- `combinedFrames`
unfoldable pub combined_frames : List ZonePeer → List ℕ
combined_frames [] = []
combined_frames (p ∷ ps) = combine_frames p.acks ps

-- `static_cast<int16>(now - frame) > MP_DISPOSE_SYNC_DELTA`
abbrev pub is_stale : ℕ → ℕ → Bool
is_stale now frame =
    ltb dispose_sync_delta (minus_16 now frame) && ltb (minus_16 now frame) (2 ^ 15)

-- `ent.nEntityID &= ~MP_ENTITY_FINAL_FLAG`
abbrev pub clear_final : ElementEntry → ElementEntry
clear_final e = record e { entity_id = e.entity_id % final_flag }

-- `m_nBasis`, from the frames in common.
unfoldable pub basis_of : ℕ → List ℕ → ℕ
basis_of now [] = now
basis_of now (f ∷ fs) =
    let max_frame = last_or f fs in if is_stale now max_frame then now else max_frame

-- The basis of the zone, and the removed elements whose last word is to be said again.
unfoldable pub choose_basis : ℕ → Zone → Zone
unfolding basis_of combined_frames
choose_basis now z =
    let frames = combined_frames z.peers in
    let fresh = record z { basis = basis_of now frames } in
    if is_empty frames
    then fresh
    else if is_stale now (last_or 0 frames)
    then record fresh { entities = map clear_final z.entities }
    else fresh

-- The acknowledgments before the basis go, but never the last one.
unfoldable pub trim_acks : ℕ → List ℕ → List ℕ
trim_acks b [] = []
trim_acks b (x ∷ []) = x ∷ []
trim_acks b (x ∷ y ∷ xs) = let rest = trim_acks b (y ∷ xs) in if ltb x b then rest else x ∷ y ∷ xs

unfoldable pub trim_peers : Zone → Zone
trim_peers z = record z {
  peers = map (λ (p : ZonePeer). record p { acks = trim_acks z.basis p.acks }) z.peers;
}

-- `lastBasis`: how far back the elements keep their states.
unfoldable pub last_basis : Bool → ℕ → ℕ → ℕ → ℕ
last_basis connected now lag basis =
    let t = minus_16 now lag in if connected && ltb basis t then basis else t

-- What stands in front of the elements: the basis, and what is acknowledged, counted in one byte.
unfoldable pub write_acks : List Ack → Writer
write_acks [] w = w
write_acks (a ∷ more) w = write_acks more ((write_u8 a.ack_peer >> write_u16 a.frame) w)

unfoldable pub write_head : Zone → Writer
unfolding write_acks
write_head z = write_u16 z.basis >> write_u8 (length z.to_ack % 2 ^ 8) >> write_acks z.to_ack

-- `m_vAck.clear()`
abbrev pub clear_acks : Zone → Zone
clear_acks z = record z { to_ack = [] }
