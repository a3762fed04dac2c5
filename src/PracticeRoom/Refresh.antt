-- ===== src/PracticeRoom/Refresh.antt =====
-- What the refresh of a room's status leaves as it is.
use allinle.Prelude.{◌≡◌, refl, false, arith}
use allinle.PracticeRoom.{
  Room, PracticeRoomStatus, waiting, ready, playing, is_over_or_playing, keeps_status,
  refresh_ready_status,
}

pub refresh-players : (r : Room) → (refresh_ready_status r).players ≡ r.players
unfolding refresh_ready_status
refresh-players r = ground arith

pub refresh-id : (r : Room) → (refresh_ready_status r).id ≡ r.id
unfolding refresh_ready_status
refresh-id r = ground arith

pub refresh-code : (r : Room) → (refresh_ready_status r).room_code ≡ r.room_code
unfolding refresh_ready_status
refresh-code r = ground arith

pub refresh-owner : (r : Room) → (refresh_ready_status r).owner_user_id ≡ r.owner_user_id
unfolding refresh_ready_status
refresh-owner r = ground arith

pub not_over-keeps_status :
    (a : PracticeRoomStatus) → is_over_or_playing a ≡ false → keeps_status a ≡ false
not_over-keeps_status waiting h = refl
not_over-keeps_status ready h = refl
not_over-keeps_status playing h = cc
not_over-keeps_status PracticeRoomStatus.finished h = cc
not_over-keeps_status PracticeRoomStatus.closed h = cc
