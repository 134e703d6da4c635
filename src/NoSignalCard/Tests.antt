-- ===== src/NoSignalCard/Tests.antt =====
-- Runs of src/liblgx/src/NoSignalCard.cpp.
use lgx2userspace.Prelude.{◌≡◌, refl, some, length, All}
use lgx2userspace.CapturePipeline.{signal, no_signal, no_device}
use lgx2userspace.NoSignalCard.{message, render, text_writes, NoSignalCard, card_frame}
use lgx2userspace.NoSignalCard.Inside.{Luma, text_writes-Luma}
use lgx2userspace.NoSignalCard.Cached.{IsCached, card_frame-IsCached}

text_writes-Luma_example : All Luma (text_writes (message no_device))
text_writes-Luma_example = text_writes-Luma no_device

-- The card of a missing signal is kept.
abbrev kept : NoSignalCard
kept = record { frame = some (render (message no_signal)); rendered = no_signal }

card_frame-IsCached_example :
    ((card_frame signal kept).0 ≡ render (message no_signal)) × IsCached (card_frame signal kept).1
card_frame-IsCached_example = card_frame-IsCached signal kept refl

longest : length (message no_device) ≡ 17
unfolding message
longest = refl
