-- ===== src/Irq/Tests.antt =====
-- Runs of the handler table and of the register writes, and the properties there.
use arcline.Base.{◌≡◌, refl, none, some, pos, negsuc}
use arcline.Irq.{init, install_handler, uninstall_handler, dispatch, handle_irq, gic_disable_irq}
use arcline.Irq.Dispatch.{Installed, install_handler-Installed}

timer : (handle_irq 30 (install_handler (pos 30) 4096 7 init).1).0 ≡ some (4096, 7)
unfolding handle_irq install_handler dispatch init
timer = refl

spurious : handle_irq 1023 init ≡ (none, 1023)
unfolding handle_irq
spurious = refl

busy_line : (install_handler (pos 30) 8192 0 (install_handler (pos 30) 4096 7 init).1).0 ≡ negsuc 1
unfolding install_handler init
busy_line = refl

removed :
    dispatch (pos 30) (uninstall_handler (pos 30) (install_handler (pos 30) 4096 7 init).1) ≡ none
unfolding dispatch uninstall_handler install_handler init
removed = refl

second_register : gic_disable_irq (pos 33) ≡ some (388, 2)
unfolding gic_disable_irq
second_register = refl

install_handler-Installed_example :
    Installed 4096 7 init (pos 30) (install_handler (pos 30) 4096 7 init)
install_handler-Installed_example = install_handler-Installed (pos 30) 4096 7 init
