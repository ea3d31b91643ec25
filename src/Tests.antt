-- ===== src/Tests.antt =====
-- Concrete runs of the model and the theorems applied to them.
mod StateMachine
mod Node
mod Pv
mod Names
mod Files
mod Devices
mod Trees
mod Values
mod Acquisition
mod Logs
mod Oscilloscope
mod Device
mod Channels
