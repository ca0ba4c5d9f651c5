-- ===== src/Lib.antt =====
-- A verification library of the kernel modules of this repository. It has one module for each
-- program that it models, and Prelude for what they share: Boolean tests, lists over the native
-- numbers, the error codes of the kernel, the 32-bit int of C and chains of steps that may fail.
--
-- Snull models snull/snull.c, the pair of virtual Ethernet devices sn0 and sn1. Snull.Types has
-- the structures (struct snull_packet, struct snull_priv, the fields of struct net_device that the
-- driver uses) and the world of both devices; Snull.Monad the commands over it, which end in a
-- value or in a fault: a null pointer followed, a packet overrun, a lock taken twice, fuel that
-- ran out. Snull.Pool has snull_setup_pool, snull_teardown_pool, snull_get_tx_buffer,
-- snull_release_buffer, snull_enqueue_buf and snull_dequeue_buf; Snull.Receive snull_rx,
-- snull_rx_ints and snull_poll; Snull.Interrupt snull_regular_interrupt and snull_napi_interrupt;
-- Snull.Transmit snull_hw_tx, snull_tx and snull_tx_timeout; Snull.Config snull_open,
-- snull_release, snull_config, snull_change_mtu and snull_header; Snull.Init snull_init, and that
-- of snull/snull_3dec2020.c. Calls of the kernel (netif_rx, dev_kfree_skb, napi_schedule and so
-- on) are recorded in the world; whether an allocation succeeds, the checksum and ether_setup are
-- parameters (Snull.Types.Env).
--
-- Snull.Returns states that a command returns without a fault, Snull.Inv the invariant of both
-- devices, with the proofs for each operation in its children; Snull.System puts the calls of the
-- kernel together and says when one is allowed, Snull.System.Reach goes through runs of them,
-- Snull.System.Start through initialisation and Snull.System.Faults through calls that fault;
-- Snull.System.Runs puts these together. The poll of snull.c is not among those calls, since
-- priv->dev stays NULL there. Snull.Deliver follows one transmission to the upper levels of the
-- twin. The loop of snull_poll runs on fuel, one more than the receive queue is long, which is
-- enough since every round takes a packet from it.
--
-- LinkedList models linkedlist/linkedlist_platform.c, a character device over a ring of ten blocks
-- of five bytes. LinkedList.Device has createlist, linkedlist_probe, linkedlist_write and
-- linkedlist_read over a memory of nodes in which a pointer is the number of a node; the copies
-- from and to the user are parameters, and an access through NULL or outside a buffer gives none.
-- LinkedList.Ring has the invariant and, in its child, every sequence of system calls;
-- LinkedList.Contents the sequence of bytes that the ring stands for; LinkedList.Start the list
-- that the probe makes; LinkedList.Echo a write that is read back.
--
-- Wifi models dummy_wifi/virtualwifi.c: Wifi.Device has the context, the work items and the calls
-- of cfg80211, which take down_interruptible's outcome as an argument; what cfg80211 is told is
-- recorded. Wifi.Scan is about scans and connections; Wifi.System puts the calls and the work
-- items in any order, and Wifi.Account counts the scan requests of such a run. Wifi.Context
-- follows navifly_create_context with its labels, navifly_free, virtual_wifi_init and
-- virtual_wifi_exit by what they hold of the kernel, and Wifi.Context.Unwind shows that it is
-- given back.
--
-- Snull.Load follows the two pointers of snull_devs through snull_init_module and snull_cleanup of
-- snull/snull.c, for every outcome of the allocations and registrations; unregistering a device
-- that did not register is taken to do nothing. Snull.Load.V2020 and Snull.Load.Anuz do so for the
-- other two versions; the last, which the Makefile builds, is snull/snull.c but for traces and
-- this loading. Snull.Cache has the cached and the rebuilt header, with the kernel's
-- eth_header_cache given by what it leaves.
--
-- Snull.V2020 models what snull/snull_3dec2020.c does otherwise; what it does alike it takes from
-- the modules of snull.c. Its poll takes the device as priv->dev has it, and the result of
-- napi_complete_done. Snull.V2020.Equal compares the two transmissions, Snull.V2020.Empty is about
-- an empty pool, Snull.V2020.Poll about the poll, Snull.V2020.Timeout about the pool that the
-- timeout makes anew, and Snull.V2020.Reach about runs of the calls of the kernel.
--
-- Keys models wait_int_dev/sleep_module.c: Keys.Device has the ring of key states, hello_keys_isr
-- and my_dev_read, which may sleep; Keys.Queue reads the ring as a queue, and Keys.Fifo compares
-- any order of interrupts and reads with an ideal queue. Keys.Probe has the probe and the removal.
--
-- Keyled models keyled/keyled_rpi_class.c: Keyled.Device has the private state, the thread that
-- flashes an LED, the files set_led, blink_on_led, blink_off_led and set_period, and both key
-- interrupts; a thread that is stopped is taken to have run at least one round. Keyled.Flags has
-- the invariant of the flags, the thread and the period. Keyled.Probe has my_probe and my_remove
-- by what they hold of the kernel, for every outcome of their calls but that the device numbers
-- are taken to be got; Keyled.Ranges is about parts with consecutive numbers, and Keyled.Unwind
-- shows what is held and given back.
--
-- Lcd models i2c_class/i2c_class.c: Lcd.Device has the command of three bytes, led_control and the
-- files sub and rgb, with the messages and pin levels recorded; Lcd.Nibbles says which nibble is
-- which LED, and Lcd.Brightness what is shown. Lcd.Probe has the probe and remove: the outcomes of
-- the calls and the child nodes are arguments, and what the kernel gives back by itself is not in
-- the ledger.
--
-- Accel models accel/spi_accel.c: Accel.Device has the transfers on the bus, the axes, the taps
-- and the files rate, position and read, with transfers and reports recorded; the chip's answers,
-- the errors of the writes, and the kernel's sign_extend32, are arguments. A status is the 32-bit
-- pattern of an int. Accel.Taps reads the reports as a user of the input device, Accel.Axes and
-- Accel.Registers the transfers as the chip. Accel.Probe has the probe and remove; Accel.Unwind
-- shows what they hold.
--
-- LedModule models led_module/led_module.c: LedModule.Device has the device of one LED with its
-- eight bytes of text, led_write, led_read and led_probe; the outcomes of the copies from and to
-- the user are arguments, and an access outside of the eight bytes gives none. LedModule.Value is
-- about the text. LedModule.Init has led_init and led_exit; ioremap is taken to succeed.
--
-- LedClass models ledclass/ledclass_module.c: the probe, whose outcomes are arguments, and
-- led_control, with the levels of the pins; LedClass.Pins is about series of calls, LedClass.Probe
-- about those behind a probe.
--
-- Timer models timer_module/timer_module.c: Timer.Device has the registers, the timer and its
-- handler, the period, led_probe and led_remove; the results of kstrtol and of the registrations
-- are arguments, and the width of a long is in the theorems. Timer.Blink is about the stores,
-- Timer.Period about the bounds of the period, Timer.Unwind about led_remove.
--
-- Dma models dma/: Dma.Engine has what the drivers ask of a DMA engine, as a parameter, and the
-- outcomes of a call. Dma.M2m has sdma_write of dma/dma_m2m.c, Dma.M2m.Probe its probe and
-- removal, and Dma.Completion the steps of two writers and of the callback on their one
-- completion. Dma.Mmap has open, ioctl and mmap of dma/dma_mmap.c over a heap of blocks, and the
-- program dma/sdma_ioctl/sdma.c. Dma.Sg has the write of dma/dma_sg.c, with the kernel's memory as
-- a function of the word's address. Bus addresses are taken to be the kernel's.
--
-- IoExp models i2c_io/i2c_io_expander.c: the read, the write and the names of the devices;
-- kstrtoul is an argument. AccelI2c models accel/i2c_accel.c, and AccelI2c.Poll is about a series
-- of polls. CharDevices follows what the small modules hold: class_module/char_module.c,
-- char_module/char_module.c, and in CharDevices.Platform btn_int_dev/btn_module.c,
-- misc_module/misc_module.c, plat_module/plat_module.c and uio_module/uio_module.c. KeyledModule
-- has what keyled/keyled_module.c does otherwise than keyled/keyled_rpi_class.c, whose definitions
-- it uses.
--
-- Not modelled: traces and printing, the registration of drivers with the kernel, preemption
-- between the statements of a call (but for Dma.Completion, every call runs to its end, under the
-- lock where the code takes it), and the modules hello_module, hello_params and hello_ioctl, which
-- only print.
pub mod Prelude
pub mod LinkedList
pub mod Snull
pub mod Keys
pub mod Keyled
pub mod Wifi
pub mod Lcd
pub mod Accel
pub mod LedModule
pub mod LedClass
pub mod Timer
pub mod Dma
pub mod IoExp
pub mod KeyledModule
pub mod AccelI2c
pub mod CharDevices
