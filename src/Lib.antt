-- ===== src/Lib.antt =====
-- The kernel modules of the FBOSS board support package, kmods/: drivers for the CPLDs and FPGAs
-- of switch platforms, written against the services of the Linux kernel.
--
-- The parts and how they interact:
--   * kmods/lib/regbit-sysfs.c turns a table of register fields into files of sysfs. Every driver
--     of a CPLD or an FPGA block hands it a table.
--   * kmods/lib/fbcpld-cdev.c does the same for fields that user space names at run time, by ioctl.
--   * kmods/fbfancpld_i2c.c drives the fan CPLD: tachometers and PWMs for hwmon, a watchdog, LEDs,
--     and one configuration by ioctl.
--   * kmods/fboss_iob_pci_main.c, kmods/lib/fbiob-auxdev.c and kmods/lib/fbiob-cdev.c make the I/O
--     controllers of an FPGA appear as auxiliary devices, by ioctl.
--   * kmods/fboss_iob_i2c.c, kmods/fboss_iob_spi.c, kmods/fboss_iob_mdio_aux.c,
--     kmods/fboss_iob_gpio.c and kmods/fboss_iob_led_aux.c drive such controllers, the first two
--     with the bulk I/O of kmods/fboss_iob_mmio.h; kmods/lib/fboss-mdio.c gives user space accesses
--     to MDIO by ioctl.
--   * The folders of the platforms hold drivers of their own for eight fan CPLDs, from which
--     kmods/fbfancpld_i2c.c was made, the LEDs of front panels, and the tables that their other
--     drivers hand to kmods/lib/regbit-sysfs.c.
--
-- The files:
--   * Base (Base/Tests, Base/Lists, Base/Int) passes on the library's names and adds Boolean tests
--     on the native numbers, texts of bytes, lists by native index and integers.
--   * Bits (Bits/Step, Bits/Laws, Bits/Bytes): the bits of a number, the C operators on them, and
--     the kernel's GENMASK, undefined outside its range.
--   * Kernel: what the drivers take from the kernel. `Ret` is a return code or an undefined step,
--     `Io S A` a call in a state S of the hardware, `Regmap` a register map or an I2C client. The
--     kernel's and the hardware's code is not in the repository: `Regmap` and `UpdateBits` are
--     parameters, and `IsRegisterFile` and `IsUpdate` are what the drivers rely on. Kernel/Memory is
--     an instance of both, Kernel/Errno the error codes.
--   * Field (Field/Laws): the arithmetic of a field that regbit-sysfs.c and fbcpld-cdev.c share.
--   * Print: the conversions of sprintf, with at most 32 digits, enough for any u32.
--   * Regbit: kmods/lib/regbit-sysfs.c and regbit-sysfs.h. `regbit_sysfs_show`,
--     `regbit_sysfs_store` and `cpld_fw_ver_show` in Regbit, the functions `regbit_handle_alloc` to
--     `regbit_sysfs_init_i2c` in Regbit/Setup, whose `World` counts what they allocate. Regbit/Access,
--     Regbit/Setup/Check, Regbit/Setup/Attrs and Regbit/Setup/Lifetime hold the proofs.
--   * Cpld: kmods/lib/fbcpld-cdev.c, fbcpld-cdev.h and fbcpld-ioctl.h. `fbcpld_sysfs_destroy_all` is
--     in two parts, `destroy_begin` with the lock and `destroy_finish` without it, so that another
--     request can be put between them (Cpld/Hazards). Cpld/Access, Cpld/Entries and Cpld/Requests
--     hold the other proofs.
--   * Fan: kmods/fbfancpld_i2c.c. The methods are in Fan, the configuration in Fan/Setup; Fan/Pwm,
--     Fan/Tach, Fan/Watchdog and Fan/Setup/Once hold the proofs.
--   * Auxdev: the auxiliary bus, its ioctl and the PCI driver; Auxdev/Bus and Auxdev/Address hold
--     the proofs.
--   * Mmio: the bulk I/O of kmods/fboss_iob_mmio.h. Mmio/Window holds the laws of registers that keep
--     words and the proofs, Mmio/Kept those of a single register, Mmio/Registers such registers.
--   * I2c: kmods/fboss_iob_i2c.c. The control of the controller and the transmit buffer are in I2c,
--     the transfer of messages in I2c/Xfer, probe and remove in I2c/Probe; I2c/Control, I2c/Frame and
--     I2c/Xfer/Loops hold the proofs.
--   * Mdio: kmods/fboss_iob_mdio_aux.c, and kmods/lib/fboss-mdio.c in Mdio/Cdev, where `MiiBus`, the
--     kernel's MDIO bus, is a parameter; Mdio/Probe has what a probe registers. Mdio/Phy states what
--     the driver relies on in the controller and the PHYs behind it, as `IsPhy`. Mdio/Wait,
--     Mdio/Command, Mdio/Deferred and Mdio/Ioctl hold the proofs.
--   * Spi: kmods/fboss_iob_spi.c, its probe, clients and remove in Spi/Probe, for any capacity
--     FBIOB_SPIDEV_MAX, of which the driver has `spidev_max` = 1. Spi/Command,
--     Spi/Transmit, Spi/Receive and Spi/Outcome hold the proofs. `IsSender` and `IsReceiver` are what
--     the transmit and the receive rely on in the controller.
--   * Gpio and PortLed: kmods/fboss_iob_gpio.c, and kmods/fboss_iob_led_aux.c with its header. The
--     probes are in Gpio/Probe and PortLed/Probe, the proofs in Gpio/Lines, PortLed/Colors and
--     PortLed/Default.
--   * Fancpld: the methods that the fan CPLD drivers kmods/montblanc/mp3_fancpld_i2c.c,
--     kmods/minipack3n/mp3n_fancpld_i2c.c, kmods/wedge800/w800_fancpld_i2c.c,
--     kmods/anacapa/anacapa_fancpld_i2c.c, kmods/icecube/icecube_fancpld_i2c.c,
--     kmods/tahansb/tahansb_fancpld_i2c.c, kmods/icetea/icetea_fancpld_i2c.c and
--     kmods/leh800b/leh800b_pdbcpld_i2c.c share, over a record of their macros; a module of
--     Fancpld/Drivers has what is the driver's own. Fancpld/Probe has the probes, with the proofs in
--     Fancpld/Probe/Register; Fancpld/Equivalence, Fancpld/Configurations and Fancpld/Platforms
--     compare the drivers with Fan.
--   * Tables: the tables of register fields, one module for each driver, named for its platform and
--     its CPLD. Tables/Sound, Tables/Created and Tables/Apart hold the proofs.
--   * Scmcpld: the LEDs of the front panels, in kmods/icecube/icecube_scmcpld_i2c.c and in the drivers
--     of that name for the other platforms of Fancpld. Scmcpld/Probe composes them with the files of
--     Regbit, Scmcpld/Panels has the LEDs and the probe of each driver; Scmcpld/Colors and
--     Scmcpld/Outcome hold the proofs, and Scmcpld/Drivers puts the eight drivers side by side.
--   * The modules called Tests run definitions on concrete inputs and apply theorems to them.
--
-- Numbers: a C `u32` or `u8` is a native number with its wrap-around written out; an `int` that can
-- be negative is the ℤ of Base/Int. A negative error code -e is `err e`, or `some e` where the
-- function returns nothing else. Loops are structural recursion over lists or counts. The printing of
-- digits has the fuel stated above; on I2C a wait polls 351 times at most, as the code does, and
-- the loops over the chunks of a message have the length of the message as fuel, for a write
-- one more, and each chunk takes at least one byte. On SPI a wait polls 31 times at most and the
-- loops have the length of the transfer as fuel; on MDIO a wait polls 51 times at most.
--
-- Not modelled: log messages, labels and names of devices; memory barriers and locks other than by
-- the order of steps; the parsing of numbers by kstrtou32 and kstrtoint, whose result is an
-- argument; the time between two polls; the addresses that a mapping returns; the triggers of LEDs;
-- the temperatures and the methods of single entries in the drivers of platforms;
-- kmods/mtia/mtia_fan_watchdog.c; the tables for transceivers and retimers; and kmods/backports,
-- which are copies of drivers of the kernel.
pub mod Base
pub mod Bits
pub mod Kernel
pub mod Field
pub mod Print
pub mod Regbit
pub mod Cpld
pub mod Fan
pub mod Auxdev
pub mod Mmio
pub mod I2c
pub mod Mdio
pub mod Spi
pub mod Fancpld
pub mod Tables
pub mod PortLed
pub mod Gpio
pub mod Scmcpld
