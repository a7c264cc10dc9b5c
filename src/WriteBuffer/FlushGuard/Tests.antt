-- ===== src/WriteBuffer/FlushGuard/Tests.antt =====
-- Two callers of one flush, and one after it.
use buy_not_buy_com.Common.{◌≡◌, refl}
use buy_not_buy_com.WriteBuffer.FlushGuard.{create_flush_guard, call_flush, flush_settled}

shared : (call_flush (call_flush create_flush_guard).0).1 ≡ 0
unfolding call_flush create_flush_guard
shared = refl

renewed : (call_flush (flush_settled (call_flush create_flush_guard).0)).1 ≡ 1
unfolding call_flush create_flush_guard flush_settled
renewed = refl
