-- ===== src/Gic/Tests.antt =====
-- The sample tree has no interrupt controller, so that it is taken for a GICv2.
use arcline.Base.{◌≡◌, ◌⊎◌, refl, arith, some, []}
use arcline.Dtb.{header, token}
use arcline.Dtb.Items.{are_short}
use arcline.Dtb.Tree.{node, flatten, flatten_props}
use arcline.Dtb.Check.{has_block, has_block-Block}
use arcline.Dtb.Sample.{sample, sample_nodes}
use arcline.Gic.{detect_version}
use arcline.Gic.Version.{IsGicv3, detect_version-IsGicv3}

detect_version-IsGicv3_example :
    (IsGicv3 sample (flatten (node [] [] sample_nodes) [])
      × (detect_version 12 32 sample 8 ≡ some 3))
    ⊎ ((¬ IsGicv3 sample (flatten (node [] [] sample_nodes) []))
        × (detect_version 12 32 sample 8 ≡ some 2))
unfolding flatten flatten_props has_block header are_short token
detect_version-IsGicv3_example =
    detect_version-IsGicv3 12 32 8 sample (flatten (node [] [] sample_nodes) []) (omega arith) refl
      (has_block-Block sample (header sample 8) (header sample 8).off_struct
        (flatten (node [] [] sample_nodes) []) refl)
      refl (omega arith)
