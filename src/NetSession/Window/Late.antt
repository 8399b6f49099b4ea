-- ===== src/NetSession/Window/Late.antt =====
-- A datagram that was delivered before, and comes again because its acknowledgement was lost.
use gta_psp_multiplayer.Prelude.{ℕ, ◌+◌, ◌%◌, ◌^◌, ◌≤◌, ◌<◌, ◌≡◌, [], ltb, false, arith}
use gta_psp_multiplayer.NetSession.Window.{Datagram, Window, seq, ahead, receive_window}

behind-refused :
    (number last_ack e : ℕ)
    → number < 2 ^ 16
    → last_ack < 2 ^ 16
    → 1 ≤ e
    → e ≤ 2 ^ 11
    → (number + e) % 2 ^ 12 ≡ last_ack % 2 ^ 12
    → ltb (ahead number last_ack) (2 ^ 11) ≡ false
behind-refused number last_ack e hn hl low high same =
    let far : 2 ^ 11 ≤ ahead number last_ack = omega arith in ground arith

-- A datagram whose number is up to 2048 before the one that is expected next is not stored, and is not
-- acknowledged again.
pub receive_window-late :
    (d : Datagram) (w : Window) (e : ℕ)
    → seq d < 2 ^ 16
    → w.last_ack < 2 ^ 16
    → 1 ≤ e
    → e ≤ 2 ^ 11
    → (seq d + e) % 2 ^ 12 ≡ w.last_ack % 2 ^ 12
    → receive_window d w ≡ (w, [])
unfolding receive_window
receive_window-late d w e hn hl low high same =
    ground (arith, behind-refused (seq d) w.last_ack e hn hl low high same)
