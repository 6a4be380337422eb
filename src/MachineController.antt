-- ===== src/MachineController.antt =====
-- internal/controller/alibabacloudmachine_controller.go: the controller of AlibabaCloudMachine.
pub mod Context
pub mod Ignition
pub mod Create
pub mod Normal
pub mod Delete
pub mod Reconcile
