-- ===== src/Chat/Reading.antt =====
-- internal/chat/service.go: the limits of ListMessages and SyncMessages.
use go_chat_msa.Common.{ℕ, ◌<◌, ◌≤◌, arith, mod_32, min_64}
use go_chat_msa.Chat.Service.{extend_32, page_limit}

-- Whatever limit a client asks for, with a positive default that is at most the maximum, the page
-- has a positive limit that is at most the maximum.
pub page_limit_bounds :
    (default most limit : ℕ)
    → 0 < default
    → default ≤ most
    → most < min_64
    → limit < mod_32
    → (0 < page_limit default most limit) × (page_limit default most limit ≤ most)
unfolding page_limit extend_32
page_limit_bounds default most limit pos le small size = ground arith
