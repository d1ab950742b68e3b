-- ===== src/Tests/MountRuns.antt =====
-- The mounts of a machine with a read-only /etc.
use llmtune.Prelude.{◌≡◌, refl, false, none, Text, codes, ◌++◌, lines}
use llmtune.Swap.Mounts.{containing, best_mount, mounted_ro, etc_units_writable_from}
use llmtune.Swap.Mounts.Innermost.{IsInnermost, best_mount-IsInnermost}

abbrev overlay_mounts : Text
overlay_mounts =
    codes "/dev/sda1 / ext4 rw,relatime 0 0\n" ++ codes "overlay /etc overlay ro,lowerdir=/x 0 0\n"

overlay_read_only : etc_units_writable_from false none overlay_mounts ≡ false
unfolding etc_units_writable_from
overlay_read_only = refl

plain_writable : mounted_ro (codes "/dev/sda1 / ext4 rw,relatime 0 0\n") (codes "/etc") ≡ false
unfolding mounted_ro
plain_writable = refl

best_mount-IsInnermost_example :
    let ms = containing (codes "/etc/systemd/system") (lines overlay_mounts) in
    IsInnermost (best_mount none ms) ms
best_mount-IsInnermost_example = best_mount-IsInnermost overlay_mounts (codes "/etc/systemd/system")
