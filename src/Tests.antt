-- ===== src/Tests.antt =====
-- The models run on concrete inputs.
mod Instances
mod OnCmux
mod OnStream
mod OnChannels
mod OnLife
mod OnPpp
mod OnHandlers
mod OnFill
mod OnPipe
mod OnChat
mod OnCellular
mod OnUart
mod OnUartAsync
