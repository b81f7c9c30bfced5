-- ===== src/Net/Sync/Tests.antt =====
-- A concrete run of the call of source/net/client.cpp.
use ffnetwork.Common.{ℕ, ◌≡◌, ◌≤◌, ◌<◌, true, Option, some, refl}
use ffnetwork.Net.Sync.{
  Sync, Move, take_lock, check_ready, callback_lock, store_response, notifying, returned, move,
  Reach, start, then_move,
}
use ffnetwork.Net.Sync.Progress.{
  CanMove, measure, is_real, perform_request_sync_returns, notify_after_return,
}

-- The caller has gone to sleep, and the callback has stored its response.
asleep : (s : Sync ℕ) × Reach 7 s
unfolding move
asleep =
    let a = then_move start take_lock refl in
    let b = then_move a check_ready refl in
    let c = then_move b callback_lock refl in (_, then_move c store_response refl)

perform_request_sync_returns_example :
    CanMove 7 asleep.0
    × (measure asleep.0 ≤ 44)
    × ((m : Move) (t : Sync ℕ)
        → is_real m ≡ true
        → move 7 m asleep.0 ≡ some t
        → measure t < measure asleep.0)
    × ((o : Option ℕ) → asleep.0.caller_pc ≡ returned o → o ≡ some 7)
perform_request_sync_returns_example = perform_request_sync_returns 7 asleep.0 asleep.1

notify_after_return_example :
    (s : Sync ℕ) × Reach 7 s × (s.caller_pc ≡ returned (some 7)) × (s.callback_pc ≡ notifying)
notify_after_return_example = notify_after_return 7
